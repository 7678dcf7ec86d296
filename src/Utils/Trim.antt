-- ===== src/Utils/Trim.antt =====
-- Trim: what it cuts off and what it leaves.
use mathlib.Core.List.{reverse, reverse-append, reverse-reverse}
use ycsb.Prelude.{◌≡◌, refl, sym, ap, ◌∙◌, true, false, [], ◌∷◌, ◌++◌, inl, inr}
use ycsb.Prelude.Tests.{Bool-cases}
use ycsb.Prelude.Lists.{All}
use ycsb.Prelude.Text.{Bytes}
use ycsb.Prelude.Chars.{is_space, drop_spaces}
use ycsb.Utils.{trim}

abbrev pub AllSpaces : Bytes → Type 0
AllSpaces s = All (λ c. is_space c ≡ true) s

-- The text is empty or its first character is no space.
abbrev pub StartsClean : Bytes → Type 0
StartsClean [] = Unit
StartsClean (c ∷ _) = is_space c ≡ false

-- No space stands at either end.
abbrev pub IsTrimmed : Bytes → Type 0
IsTrimmed s = StartsClean s × StartsClean (reverse s)

AllSpaces-append : (s t : Bytes) → AllSpaces s → AllSpaces t → AllSpaces (s ++ t)
AllSpaces-append [] t h k = k
AllSpaces-append (c ∷ s) t h k = (h.0, AllSpaces-append s t h.1 k)

AllSpaces-reverse : (s : Bytes) → AllSpaces s → AllSpaces (reverse s)
AllSpaces-reverse [] h = h
AllSpaces-reverse (c ∷ s) h =
    rw (reverse-append (c ∷ []) s)
      (AllSpaces-append (reverse s) (c ∷ []) (AllSpaces-reverse s h.1) (h.0, tt))

drop_spaces-StartsClean : (s : Bytes) → StartsClean (drop_spaces s)
unfolding drop_spaces
drop_spaces-StartsClean [] = tt
drop_spaces-StartsClean (c ∷ s) = elim (Bool-cases (is_space c)) [
  | inl e ↦ rw e (drop_spaces-StartsClean s)
  | inr e ↦ rw e e
]

drop_spaces_cut : (s : Bytes) → (p : Bytes) × (s ≡ p ++ drop_spaces s) × AllSpaces p
unfolding drop_spaces
drop_spaces_cut [] = ([], refl, tt)
drop_spaces_cut (c ∷ s) = elim (Bool-cases (is_space c)) [
  | inl e ↦ let (p, q, r) = drop_spaces_cut s in (c ∷ p, rw e (ap (λ t. c ∷ t) q), (e, r))
  | inr e ↦ ([], rw e refl, tt)
]

StartsClean-append : (s t : Bytes) → StartsClean (s ++ t) → StartsClean s
StartsClean-append [] t h = tt
StartsClean-append (c ∷ s) t h = h

drop_spaces-eq_self : (s : Bytes) → StartsClean s → drop_spaces s ≡ s
unfolding drop_spaces
drop_spaces-eq_self [] h = refl
drop_spaces-eq_self (c ∷ s) h = rw h

-- Trim leaves a text alone that has no space at its ends.
pub trim-eq_self : (s : Bytes) → IsTrimmed s → trim s ≡ s
unfolding trim
trim-eq_self s h =
    rw (drop_spaces-eq_self s h.0, drop_spaces-eq_self (reverse s) h.1) (reverse-reverse s)

-- Trim cuts a row of white space off each end, and leaves a text that has none at its ends.
trim_cut :
    (s : Bytes)
    → (p q : Bytes) × (s ≡ p ++ (trim s ++ q)) × AllSpaces p × AllSpaces q × IsTrimmed (trim s)
unfolding trim
trim_cut s =
    let f : Bytes = drop_spaces s in
    let (p, cut, spaces) = drop_spaces_cut s in
    let (q, back, trailing) = drop_spaces_cut (reverse f) in
    let whole : f ≡ reverse (drop_spaces (reverse f)) ++ reverse q =
      sym (reverse-reverse f) ∙ ap reverse back ∙ reverse-append q (drop_spaces (reverse f)) in
    (
      p,
      reverse q,
      cut ∙ ap (λ t. p ++ t) whole,
      spaces,
      AllSpaces-reverse q trailing,
      (
        StartsClean-append _ (reverse q) (rw (← whole) (drop_spaces-StartsClean s)),
        rw (reverse-reverse (drop_spaces (reverse f))) (drop_spaces-StartsClean (reverse f)),
      ),
    )
