-- ===== src/Tracker/Wildcards.antt =====
-- What a pattern that starts with a star matches.
use layer_mount.Base.{
  nat_eq, ℕ, zero, suc, ◌+◌, ◌-◌, ◌≡◌, ◌↔◌, refl, ap, sym, ◌∙◌, true, false, [], ◌∷◌, ◌++◌, arith,
  eq_nat, eq_list, map, length, length-append, take, drop, ltb, ◌==◌, ==_eq, ==_refl, Bool-cases,
  inl, inr,
}
use layer_mount.Layer.Disk.{WString}
use layer_mount.Layer.Names.{TextService}
use layer_mount.Tracker.{star, ends_with, match_star, match_lowered, star_position, wildcard_match}

match_star-leading :
    (c : ℕ) (rest t : WString) → match_star (star ∷ c ∷ rest) t 0 ≡ ends_with (c ∷ rest) t
unfolding match_star
match_star-leading c rest t =
    let inside : nat_eq 0 (length (star ∷ c ∷ rest) - 1) ≡ false = ground arith in rw inside refl

take-drop : (n : ℕ) (t : WString) → t ≡ take n t ++ drop n t
take-drop zero t = refl
take-drop (suc n) [] = refl
take-drop (suc n) (c ∷ t) = ap (◌∷◌ c) (take-drop n t)

drop-append : (front t : WString) → drop (length front) (front ++ t) ≡ t
drop-append [] t = refl
drop-append (c ∷ front) t = drop-append front t

ends_with-split :
    (suffix t : WString)
    → ends_with suffix t ≡ true
    → t ≡ take (length t - length suffix) t ++ suffix
unfolding ends_with
ends_with-split suffix t ends = elim (Bool-cases (ltb (length t) (length suffix))) [
  | inl short ↦ let clash : false ≡ true = rw short at ends in ground (arith, clash)
  | inr fits ↦
      let same : (drop (length t - length suffix) t == suffix) ≡ true = rw fits at ends in
      take-drop (length t - length suffix) t
      ∙ ap (◌++◌ (take (length t - length suffix) t)) (==_eq _ suffix same)
]

ends_with-append : (front suffix : WString) → ends_with suffix (front ++ suffix) ≡ true
unfolding ends_with
ends_with-append front suffix =
    let size = length-append front suffix in
    let fits : ltb (length front + length suffix) (length suffix) ≡ false = ground arith in
    let gap : length front + length suffix - length suffix ≡ length front = omega arith in
    rw (size, fits, gap, drop-append front suffix) (==_refl suffix)

-- Where the case fold leaves the star alone, a pattern of a star and more matches exactly the texts
-- that are some text followed by the rest of the pattern, case folded. A second star at the end of
-- the pattern is a character of that ending, so `*middle*` is no search for `middle`.
pub wildcard_match-star :
    (text : TextService) (c : ℕ) (rest t : WString)
    → text.lower star ≡ star
    → (wildcard_match text (star ∷ c ∷ rest) t ≡ true)
      ↔ ((front : WString) × (map text.lower t ≡ front ++ map text.lower (c ∷ rest)))
unfolding wildcard_match match_lowered match_star star_position
wildcard_match-star text c rest t kept =
    let ending = map text.lower (c ∷ rest) in
    let folded = map text.lower t in
    let matches : wildcard_match text (star ∷ c ∷ rest) t ≡ ends_with ending folded =
      rw kept (match_star-leading (text.lower c) (map text.lower rest) folded) in
    (
      λ hit. (
        take (length folded - length ending) folded,
        ends_with-split ending folded (sym matches ∙ hit),
      ),
      λ (front, split). matches ∙ (ap (ends_with ending) split ∙ ends_with-append front ending),
    )
