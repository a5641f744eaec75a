-- ===== src/Observability/BusinessMetrics/Laws.antt =====
-- The reason label is fit for a metric, whatever the reason says.
use mathlib.Core.List.{reverse, reverse-cons}
use a2a_agent_layer.Common.{
  ℕ, zero, suc, ◌≤◌, Bool, true, false, ◌≡◌, ◌≢◌, ◌⊎◌, [], ◌∷◌, ◌++◌, length, All, Text, arith,
}
use a2a_agent_layer.Observability.BusinessMetrics.{
  is_slug_char, underscore_runs, drop_underscores, trim_underscores, slice_to, or_unspecified,
  reason_label,
}

abbrev pub IsLabelChar : ℕ → Type 0
IsLabelChar c = (is_slug_char c ≡ true) ⊎ (c ≡ b'_')

abbrev pub IsLabel : Text → Type 0
IsLabel s = (s ≢ []) × (length s ≤ 48) × All IsLabelChar s

underscore_runs-All : (b : Bool) (s : Text) → All IsLabelChar (underscore_runs b s)
unfolding underscore_runs
underscore_runs-All b [] = tt
underscore_runs-All b (c ∷ s) =
    ground (arith, underscore_runs-All true s, underscore_runs-All false s)

drop_underscores-All : (s : Text) → All IsLabelChar s → All IsLabelChar (drop_underscores s)
unfolding drop_underscores
drop_underscores-All [] h = tt
drop_underscores-All (c ∷ s) h = ground (arith, drop_underscores-All s h.1)

All-snoc : (s : Text) (c : ℕ) → All IsLabelChar s → IsLabelChar c → All IsLabelChar (s ++ c ∷ [])
All-snoc [] c h p = (p, tt)
All-snoc (d ∷ s) c h p = (h.0, All-snoc s c h.1 p)

reverse-All : (s : Text) → All IsLabelChar s → All IsLabelChar (reverse s)
reverse-All [] h = tt
reverse-All (c ∷ s) h = rw reverse-cons (All-snoc (reverse s) c (reverse-All s h.1) h.0)

trim_underscores-All : (s : Text) → All IsLabelChar s → All IsLabelChar (trim_underscores s)
unfolding trim_underscores
trim_underscores-All s h =
    reverse-All _ (drop_underscores-All _ (reverse-All _ (drop_underscores-All s h)))

slice_to-All :
    (n : ℕ) (s : Text)
    → All IsLabelChar s
    → All IsLabelChar (slice_to n s) × (length (slice_to n s) ≤ n)
unfolding slice_to
slice_to-All zero s h = (tt, omega arith)
slice_to-All (suc n) [] h = (tt, omega arith)
slice_to-All (suc n) (c ∷ s) h = let (p, q) = slice_to-All n s h.1 in ((h.0, p), omega arith)

or_unspecified-IsLabel : (s : Text) → length s ≤ 48 → All IsLabelChar s → IsLabel (or_unspecified s)
or_unspecified-IsLabel [] n h = (λ e. cc, omega arith, ground arith)
or_unspecified-IsLabel (c ∷ s) n h = (λ e. cc, n, h)

-- The label of any reason is not empty, has at most 48 characters, and holds only lower case
-- letters, digits and underscores.
pub reason_label-IsLabel : (reason : Text) → IsLabel (reason_label reason)
unfolding reason_label
reason_label-IsLabel reason =
    let slug = trim_underscores-All _ (underscore_runs-All false reason) in
    let (p, q) = slice_to-All 48 _ slug in or_unspecified-IsLabel _ q p
