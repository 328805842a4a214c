-- ===== src/Harness/Identifiers/Laws.antt =====
-- The candidates of an identifier and the equivalence that they decide.
use mathlib.Core.Path.{subst}
use harness_gitops_agent_ope.Common.{
  String, ◌≡◌, refl, Bool, true, false, ◌&&◌, ◌||◌, not, List, [], ◌∷◌, ◌++◌, arith,
}
use harness_gitops_agent_ope.Text.{◌==◌, trim_space, eq_refl, eq_iff}
use harness_gitops_agent_ope.Text.Trim.{trim_space_idem}
use harness_gitops_agent_ope.Text.Order.{eq_comm}
use harness_gitops_agent_ope.Harness.Identifiers.{
  listed, add_candidate, scoped_candidates, scoped_identifier_candidates, identifiers_equivalent,
}

-- no candidate is empty, and none is listed twice
unfoldable pub is_distinct : List String → Bool
is_distinct [] = true
is_distinct (c ∷ cs) = not (c == "") && not (listed cs c) && is_distinct cs

listed-append :
    (cs : List String) (d v : String) → listed (cs ++ d ∷ []) v ≡ (listed cs v || d == v)
unfolding listed
listed-append [] d v = ground arith
listed-append (c ∷ cs) d v = ground (arith, listed-append cs d v)

append-is_distinct :
    (cs : List String) (v : String)
    → is_distinct cs ≡ true
    → (v == "") ≡ false
    → listed cs v ≡ false
    → is_distinct (cs ++ v ∷ []) ≡ true
unfolding is_distinct listed
append-is_distinct [] v distinct nonempty new = ground (arith, nonempty)
append-is_distinct (c ∷ cs) v distinct nonempty new =
    ground (arith, listed-append cs v c, eq_comm v c, append-is_distinct cs v)

add_candidate-is_distinct :
    (cs : List String) (value : String)
    → is_distinct cs ≡ true
    → is_distinct (add_candidate cs value) ≡ true
unfolding add_candidate
add_candidate-is_distinct cs value distinct =
    ground (arith, append-is_distinct cs (trim_space value))

scoped_candidates-is_distinct :
    (scope id : String) → is_distinct (scoped_candidates scope id) ≡ true
unfolding scoped_candidates is_distinct
scoped_candidates-is_distinct scope id = grind (arith, add_candidate-is_distinct)

-- The candidates of an identifier, in whichever scope: none is empty and none is listed twice.
pub candidates-is_distinct :
    (scope id : String) → is_distinct (scoped_identifier_candidates scope id) ≡ true
unfolding scoped_identifier_candidates is_distinct
candidates-is_distinct scope id = grind (arith, scoped_candidates-is_distinct)

-- adding keeps what is listed, and lists the trimmed value
add_candidate-listed :
    (cs : List String) (value : String)
    → (trim_space value == "") ≡ false
    → listed (add_candidate cs value) (trim_space value) ≡ true
unfolding add_candidate
add_candidate-listed cs value nonempty =
    ground
      (arith, listed-append cs (trim_space value) (trim_space value), eq_refl (trim_space value))

add_candidate-keeps :
    (cs : List String) (value v : String)
    → listed cs v ≡ true
    → listed (add_candidate cs value) v ≡ true
unfolding add_candidate
add_candidate-keeps cs value v inside = ground (arith, listed-append cs (trim_space value) v)

added_listed :
    (id : String)
    → (id == "") ≡ false
    → trim_space id ≡ id
    → (cs : List String) → listed (add_candidate cs id) id ≡ true
added_listed id nonempty trimmed cs =
    subst (λ v. (v == "") ≡ false → listed (add_candidate cs id) v ≡ true) trimmed
      (add_candidate-listed cs id) nonempty

scoped_candidates-listed :
    (scope id : String)
    → (id == "") ≡ false
    → trim_space id ≡ id
    → listed (scoped_candidates scope id) id ≡ true
unfolding scoped_candidates
scoped_candidates-listed scope id nonempty trimmed =
    grind (arith, added_listed id nonempty trimmed, add_candidate-keeps)

candidates-listed :
    (scope id : String)
    → (trim_space id == "") ≡ false
    → listed (scoped_identifier_candidates scope id) (trim_space id) ≡ true
unfolding scoped_identifier_candidates
candidates-listed scope id nonempty =
    rw nonempty (scoped_candidates-listed scope (trim_space id) nonempty (trim_space_idem id))

not_listed-empty : (cs : List String) → is_distinct cs ≡ true → listed cs "" ≡ false
unfolding is_distinct listed
not_listed-empty [] distinct = refl
not_listed-empty (c ∷ cs) distinct = ground (arith, not_listed-empty cs)

candidates-trim :
    (scope id : String)
    → scoped_identifier_candidates scope (trim_space id) ≡ scoped_identifier_candidates scope id
unfolding scoped_identifier_candidates
candidates-trim scope id = rw (trim_space_idem id) refl

candidates-blank :
    (scope id : String) → (trim_space id == "") ≡ true → scoped_identifier_candidates scope id ≡ []
unfolding scoped_identifier_candidates
candidates-blank scope id blank = rw blank refl

blank-not_listed :
    (scope l r : String)
    → (trim_space l == "") ≡ true
    → listed (scoped_identifier_candidates scope r) (trim_space l) ≡ false
blank-not_listed scope l r blank =
    rw ((eq_iff (trim_space l) "").0 blank)
      (not_listed-empty (scoped_identifier_candidates scope r) (candidates-is_distinct scope r))

same-listed :
    (scope l r : String)
    → (trim_space r == "") ≡ false
    → (trim_space l == trim_space r) ≡ true
    → listed (scoped_identifier_candidates scope r) (trim_space l) ≡ true
same-listed scope l r nonempty same =
    rw ((eq_iff (trim_space l) (trim_space r)).0 same) (candidates-listed scope r nonempty)

none-listed : (cs : List String) (v : String) → cs ≡ [] → listed cs v ≡ false
unfolding listed
none-listed cs v empty = rw empty refl

-- The equivalence of identifiers is membership: the early answers for blank and for equal identifiers
-- agree with a look among the candidates of the right one.
pub equivalent-eq-listed :
    (scope l r : String)
    → identifiers_equivalent scope l r
      ≡ listed (scoped_identifier_candidates scope r) (trim_space l)
unfolding identifiers_equivalent
equivalent-eq-listed scope l r = ground (
  arith,
  blank-not_listed scope l r,
  same-listed scope l r,
  none-listed (scoped_identifier_candidates scope r) (trim_space l),
  candidates-blank scope r,
  candidates-trim scope r,
)

pub identifiers_equivalent_refl :
    (scope s : String) → (trim_space s == "") ≡ false → identifiers_equivalent scope s s ≡ true
unfolding identifiers_equivalent
identifiers_equivalent_refl scope s nonempty = rw (nonempty, eq_refl (trim_space s)) refl

listed-nonempty :
    (cs : List String) (v : String)
    → listed cs v ≡ true
    → (c : String) × (rest : List String) × (cs ≡ c ∷ rest)
unfolding listed
listed-nonempty [] v inside = absurd (ground arith)
listed-nonempty (c ∷ rest) v inside = (c, rest, refl)

pub candidates-nonempty :
    (scope id : String)
    → (trim_space id == "") ≡ false
    → (c : String) × (rest : List String) × (scoped_identifier_candidates scope id ≡ c ∷ rest)
candidates-nonempty scope id nonempty =
    listed-nonempty (scoped_identifier_candidates scope id) (trim_space id)
      (candidates-listed scope id nonempty)
