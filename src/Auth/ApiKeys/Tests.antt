-- ===== src/Auth/ApiKeys/Tests.antt =====
-- A configuration with two callers, a malformed entry and a key that is given twice.
use a2a_agent_layer.Common.{◌≡◌, ◌↔◌, refl, [], ◌∷◌, none, some, Text, codes}
use a2a_agent_layer.Common.Trim.{trim, drop_spaces, split_on}
use a2a_agent_layer.Auth.ApiKeys.{ApiKeyConfig, load_keys, verify_key}
use a2a_agent_layer.Auth.ApiKeys.Laws.{IsLast, verify_key-load_keys}

abbrev pub config : ApiKeyConfig
config = record { raw = some (codes "rail:k1, net:k:2 ,bad,late:k1"); header = none }

abbrev pub plain_digest : Text → Text
plain_digest s = s

-- The last of the two entries with this key, which nothing follows.
late_entry :
    IsLast plain_digest
      (codes "k1")
      (split_on b',' (codes "rail:k1, net:k:2 ,bad,late:k1"))
      (codes "late")
unfolding split_on trim drop_spaces
late_entry = (
  codes "rail:k1" ∷ codes " net:k:2 " ∷ codes "bad" ∷ [],
  codes "late:k1",
  [],
  codes "k1",
  refl,
  (refl, refl, (λ e. cc), (λ e. cc)),
  refl,
  tt,
)

verify_key-load_keys_example :
    (verify_key plain_digest (some (codes "k1")) (load_keys plain_digest config)
      ≡ some (record { label = codes "late" }))
    ↔ IsLast plain_digest
        (codes "k1")
        (split_on b',' (codes "rail:k1, net:k:2 ,bad,late:k1"))
        (codes "late")
verify_key-load_keys_example =
    verify_key-load_keys plain_digest config b'k' (codes "1") (codes "late")
