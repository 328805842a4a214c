-- ===== src/Text/Trim.antt =====
-- `strings.TrimSpace`: trimming twice is trimming once.
use Prim.Native.Char.{Char, code}
use harness_gitops_agent_ope.Common.{String, ◌≡◌, refl, arith, true, false, inl, inr, Bool-cases}
use harness_gitops_agent_ope.Text.{
  ◌==◌, eq_iff, is_space, trim_left, trim_cons, trim_right, trim_space,
}

trim_cons-trim_right :
    (c : Char) (s : String) → trim_right s ≡ s → trim_right (trim_cons c s) ≡ trim_cons c s
unfolding trim_right trim_cons
trim_cons-trim_right c String.[] h = elim (Bool-cases (is_space (code c))) [
  | inl e ↦ rw e refl
  | inr e ↦ rw (e, trim_cons) (rw e refl)
]
trim_cons-trim_right c (String.◌∷◌ d s) h = rw h refl

trim_right_idem : (s : String) → trim_right (trim_right s) ≡ trim_right s
unfolding trim_right
trim_right_idem String.[] = refl
trim_right_idem (String.◌∷◌ c s) = trim_cons-trim_right c (trim_right s) (trim_right_idem s)

trim_left-trim_cons :
    (c : Char) (s : String) → is_space (code c) ≡ false → trim_left (trim_cons c s) ≡ trim_cons c s
unfolding trim_left trim_cons
trim_left-trim_cons c String.[] e = rw e (rw e refl)
trim_left-trim_cons c (String.◌∷◌ d s) e = rw e refl

trim_left-trim_right :
    (s : String) → trim_left (trim_right (trim_left s)) ≡ trim_right (trim_left s)
unfolding trim_left trim_right
trim_left-trim_right String.[] = refl
trim_left-trim_right (String.◌∷◌ c s) = elim (Bool-cases (is_space (code c))) [
  | inl e ↦ rw e (trim_left-trim_right s)
  | inr e ↦ rw e (trim_left-trim_cons c (trim_right s) e)
]

pub trim_space_idem : (s : String) → trim_space (trim_space s) ≡ trim_space s
unfolding trim_space
trim_space_idem s = rw (trim_left-trim_right s) (trim_right_idem (trim_left s))

empty-trim_space : (s : String) → (s == "") ≡ true → (trim_space s == "") ≡ true
unfolding trim_space
empty-trim_space s h = rw ((eq_iff s "").0 h) refl

pub nonempty-trim_space : (s : String) → (trim_space s == "") ≡ false → (s == "") ≡ false
nonempty-trim_space s h = ground (arith, empty-trim_space s)
