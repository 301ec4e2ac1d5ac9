-- ===== src/Chaos/Validation.antt =====
-- What `validateSet` of chaos/chaos.go guarantees of the sets that it accepts.
use text.Mathlib.TextEquality.{eq_iff}
use mathlib.Core.Path.{subst}
use go_weave.Prelude.{
  ℕ, zero, suc, ◌+◌, ◌<◌, ◌≡◌, sym, arith, none, some, List, [], ◌∷◌, String, get_elem?, ◌⊎◌, inl,
  inr, some_eq, ◌≢◌,
}
use go_weave.Chaos.Rules.{
  Rule, check, seen_at, next_iface_wild, next_method_wild, validate_from, validate_set,
}

seen_at-cons :
    (i m i' m' : String) (j : ℕ) (seen : List (String × String × ℕ))
    → seen_at i m ((i', m', j) ∷ seen) ≡ none
    → (seen_at i m seen ≡ none) × ((i' ≡ i) → (m' ≡ m) → ⊥)
unfolding seen_at
seen_at-cons i m i' m' j seen h = ground (arith, eq_iff i' i, eq_iff m' m)

both_wild :
    (E V : Type 0) (i : ℕ) (seen : List (String × String × ℕ)) (iw mw : String)
    → validate_from {E = E} {V = V} i seen iw mw [] ≡ none
    → iw ≢ ""
    → mw ≢ ""
    → ⊥
unfolding validate_from
both_wild E V i seen iw mw h a b = ground (arith, eq_iff iw "", eq_iff mw "")

module _ {E V : Type 0} where
  -- One round of the loop that goes on.
  accepted_round :
      (i : ℕ) (seen : List (String × String × ℕ)) (iw mw : String) (r : Rule E V)
      (rs : List (Rule E V))
      → validate_from i seen iw mw (r ∷ rs) ≡ none
      → (check r ≡ none)
        × (seen_at r.iface r.method seen ≡ none)
        × (validate_from
              (i + 1)
              ((r.iface, r.method, i) ∷ seen)
              (next_iface_wild iw r)
              (next_method_wild mw r)
              rs
            ≡ none)
  unfolding validate_from
  accepted_round i seen iw mw r rs h = ground arith

  checked_rules :
      (i : ℕ) (seen : List (String × String × ℕ)) (iw mw : String) (rs : List (Rule E V)) (k : ℕ)
      {r : Rule E V}
      → validate_from i seen iw mw rs ≡ none
      → get_elem? rs k ≡ some r
      → check r ≡ none
  checked_rules i seen iw mw [] k h at = cc
  checked_rules i seen iw mw (r ∷ rs) zero h at =
      let (ok, _, _) = accepted_round i seen iw mw r rs h in ground arith
  checked_rules i seen iw mw (r ∷ rs) (suc k) h at =
      let (_, _, next) = accepted_round i seen iw mw r rs h in
      checked_rules (i + 1) _ _ _ rs k next at

  unseen_rules :
      (i : ℕ) (seen : List (String × String × ℕ)) (iw mw : String) (rs : List (Rule E V)) (k : ℕ)
      {r : Rule E V}
      → validate_from i seen iw mw rs ≡ none
      → get_elem? rs k ≡ some r
      → seen_at r.iface r.method seen ≡ none
  unseen_rules i seen iw mw [] k h at = cc
  unseen_rules i seen iw mw (r ∷ rs) zero h at =
      let (_, ok, _) = accepted_round i seen iw mw r rs h in ground arith
  unseen_rules i seen iw mw (r ∷ rs) (suc k) {r = r'} h at =
      let (_, _, next) = accepted_round i seen iw mw r rs h in
      (seen_at-cons r'.iface r'.method r.iface r.method i seen
        (unseen_rules (i + 1) _ _ _ rs k next at)).0

  distinct_from :
      (i : ℕ) (seen : List (String × String × ℕ)) (iw mw : String) (rs : List (Rule E V)) (k l : ℕ)
      {r s : Rule E V}
      → validate_from i seen iw mw rs ≡ none
      → get_elem? rs k ≡ some r
      → get_elem? rs l ≡ some s
      → k < l
      → r.iface ≡ s.iface
      → r.method ≡ s.method
      → ⊥
  distinct_from i seen iw mw [] k l h at at' lt e e' = cc
  distinct_from i seen iw mw (r ∷ rs) k zero h at at' lt e e' = absurd (omega arith)
  distinct_from i seen iw mw (r ∷ rs) zero (suc l) {r = r'} {s = s} h at at' lt e e' =
      let (_, _, next) = accepted_round i seen iw mw r rs h in
      (seen_at-cons s.iface s.method r.iface r.method i seen
          (unseen_rules (i + 1) _ _ _ rs l next at')).1
        (cc) (cc)
  distinct_from i seen iw mw (r ∷ rs) (suc k) (suc l) h at at' lt e e' =
      let (_, _, next) = accepted_round i seen iw mw r rs h in
      distinct_from (i + 1) _ _ _ rs k l next at at' (omega arith) e e'

  abbrev pub IsIfaceWild : Rule E V → Type 0
  IsIfaceWild r = (r.iface ≢ "") × (r.method ≡ "")

  abbrev pub IsMethodWild : Rule E V → Type 0
  IsMethodWild r = (r.iface ≡ "") × (r.method ≢ "")

  -- Once a wildcard of one kind has been met, its name is remembered.
  iface_wild_kept :
      (iw : String) (r : Rule E V) → (iw ≢ "") ⊎ IsIfaceWild r → next_iface_wild iw r ≢ ""
  iface_wild_kept iw r h = ground (arith, eq_iff iw "", eq_iff r.iface "", eq_iff r.method "")

  method_wild_kept :
      (mw : String) (r : Rule E V) → (mw ≢ "") ⊎ IsMethodWild r → next_method_wild mw r ≢ ""
  method_wild_kept mw r h = ground (arith, eq_iff mw "", eq_iff r.iface "", eq_iff r.method "")

  abbrev WildIn : (Rule E V → Type 0) → String → List (Rule E V) → Type 0
  WildIn P w rs = (w ≢ "") ⊎ ((k : ℕ) × (r : Rule E V) × (get_elem? rs k ≡ some r) × P r)

  wild_next :
      (P : Rule E V → Type 0) (w w' : String) (r : Rule E V) (rs : List (Rule E V))
      → ((w ≢ "") ⊎ P r → w' ≢ "")
      → WildIn P w (r ∷ rs)
      → WildIn P w' rs
  wild_next P w w' r rs keep (inl n) = inl (keep (inl n))
  wild_next P w w' r rs keep (inr (zero, r', at, p)) =
      inl (keep (inr (subst P (sym (some_eq r r' at)) p)))
  wild_next P w w' r rs keep (inr (suc k, r', at, p)) = inr (k, r', at, p)

  no_overlap_from :
      (i : ℕ) (seen : List (String × String × ℕ)) (iw mw : String) (rs : List (Rule E V))
      → validate_from i seen iw mw rs ≡ none
      → WildIn IsIfaceWild iw rs
      → WildIn IsMethodWild mw rs
      → ⊥
  no_overlap_from i seen iw mw [] h (inl a) (inl b) = both_wild E V i seen iw mw h a b
  no_overlap_from i seen iw mw [] h (inr (k, r, at, p)) b = cc
  no_overlap_from i seen iw mw [] h (inl a) (inr (k, r, at, p)) = cc
  no_overlap_from i seen iw mw (r ∷ rs) h a b =
      let (_, _, next) = accepted_round i seen iw mw r rs h in
      no_overlap_from (i + 1) _ _ _ rs next
        (wild_next IsIfaceWild iw _ r rs (iface_wild_kept iw r) a)
        (wild_next IsMethodWild mw _ r rs (method_wild_kept mw r) b)

  -- What an accepted set is.
  pub record IsAccepted (rs : List (Rule E V)) : Type 0 where
    pub each_good : (k : ℕ) (r : Rule E V) → get_elem? rs k ≡ some r → check r ≡ none
    pub distinct :
        (k l : ℕ) (r s : Rule E V)
        → get_elem? rs k ≡ some r
        → get_elem? rs l ≡ some s
        → r.iface ≡ s.iface
        → r.method ≡ s.method
        → k ≡ l
    pub no_overlap :
        (k l : ℕ) (r s : Rule E V)
        → get_elem? rs k ≡ some r
        → get_elem? rs l ≡ some s
        → IsIfaceWild r
        → IsMethodWild s
        → ⊥

  pub validate_set-IsAccepted : (rs : List (Rule E V)) → validate_set rs ≡ none → IsAccepted rs
  unfolding validate_set
  validate_set-IsAccepted rs h = record {
    each_good = λ k r at. checked_rules 0 [] "" "" rs k h at;
    distinct = λ k l r s at at' e e'. ground (
      arith,
      λ (lt : k < l). distinct_from 0 [] "" "" rs k l h at at' lt e e',
      λ (lt : l < k). distinct_from 0 [] "" "" rs l k h at' at lt (sym e) (sym e'),
    );
    no_overlap = λ k l r s at at' a b.
        no_overlap_from 0 [] "" "" rs h (inr (k, r, at, a)) (inr (l, s, at', b));
  }
