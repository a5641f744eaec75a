-- ===== src/Chain/Networks/Laws.antt =====
-- The addresses are read once.
use a2a_agent_layer.Common.{◌≡◌, ap, Option, none, some, Text, Outcome, ok, throw, ok_inj}
use a2a_agent_layer.Config.{Env}
use a2a_agent_layer.Chain.Networks.{ContractAddresses, remember, load_addresses, contract_addresses}

module _ {Num : Type 0} (number : Text → Num) where
  remembered :
      (o : Outcome ContractAddresses) {addresses : ContractAddresses}
      → (remember number o).0 ≡ ok addresses
      → (remember number o).1 ≡ some addresses
  remembered (ok a) e = ap some (ok_inj e)
  remembered (throw x) e = cc

  first_read :
      (deployment : Text → Outcome ContractAddresses) (env : Env) (cache : Option ContractAddresses)
      {addresses : ContractAddresses}
      → (contract_addresses number deployment env cache).0 ≡ ok addresses
      → (contract_addresses number deployment env cache).1 ≡ some addresses
  unfolding contract_addresses
  first_read deployment env (some cached) e = ap some (ok_inj e)
  first_read deployment env none e = remembered (load_addresses number deployment env) e

  -- Once the addresses were read, every later call answers with them, whatever the environment and the file
  -- hold by then.
  pub contract_addresses_again :
      (deployment later : Text → Outcome ContractAddresses) (env changed : Env)
      (cache : Option ContractAddresses) {addresses : ContractAddresses}
      → (contract_addresses number deployment env cache).0 ≡ ok addresses
      → contract_addresses number later changed (contract_addresses number deployment env cache).1
        ≡ (ok addresses, some addresses)
  unfolding contract_addresses
  contract_addresses_again deployment later env changed cache e =
      ap (λ c. contract_addresses number later changed c) (first_read deployment env cache e)
