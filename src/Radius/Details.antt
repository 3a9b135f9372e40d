-- ===== src/Radius/Details.antt =====
-- The walk of parseNAKDetail over the attributes of a NAK, as the loop of the source.
use myfipay.Base.{
  ℕ, zero, suc, ◌≤◌, ◌<◌, ◌≡◌, ◌↔◌, ◌⊎◌, refl, sym, subst, ◌∙◌, [], ◌∷◌, true, false, ◌||◌, ltb,
  length, drop, arith, length-drop, if◌then◌else◌, if-cases,
}
use myfipay.Radius.{
  Bytes, Result, byte_at, slice, note_attr, parse_nak_detail_from, parse_nak_detail,
}

-- The loop of the source, from the bytes that are left and what was found so far to its end: too few
-- bytes for an attribute, a length that cannot be, or one attribute and the bytes after it.
pub data Walk : Bytes → Result → Result → Type 0 where
  ends : {attrs : Bytes} {r : Result} → length attrs < 2 → Walk attrs r r
  breaks :
      {attrs : Bytes} {r : Result}
      → 2 ≤ length attrs
      → (byte_at 1 attrs < 2) ⊎ (length attrs < byte_at 1 attrs)
      → Walk attrs r r
  reads :
      {attrs : Bytes} {r end : Result}
      → 2 ≤ byte_at 1 attrs
      → byte_at 1 attrs ≤ length attrs
      → Walk
          (drop (byte_at 1 attrs) attrs)
          (note_attr (byte_at 0 attrs) (slice 2 (byte_at 1 attrs) attrs) r)
          end
      → Walk attrs r end

bad : (l n : ℕ) → ltb l 2 || ltb n l ≡ true → (l < 2) ⊎ (n < l)
bad l n h = ground arith

good : (l n : ℕ) → ltb l 2 || ltb n l ≡ false → (2 ≤ l) × (l ≤ n)
good l n h = ground arith

parse_few :
    (n : ℕ) (attrs : Bytes) (r : Result) → length attrs < 2 → parse_nak_detail_from n attrs r ≡ r
unfolding parse_nak_detail_from
parse_few zero attrs r h = refl
parse_few (suc n) [] r h = refl
parse_few (suc n) (typ ∷ []) r h = refl
parse_few (suc n) (typ ∷ l ∷ rest) r h = absurd (omega arith)

parse_broken :
    (n : ℕ) (attrs : Bytes) (r : Result)
    → (byte_at 1 attrs < 2) ⊎ (length attrs < byte_at 1 attrs)
    → parse_nak_detail_from n attrs r ≡ r
unfolding parse_nak_detail_from
parse_broken zero attrs r h = refl
parse_broken (suc n) [] r h = refl
parse_broken (suc n) (typ ∷ []) r h = refl
parse_broken (suc n) (typ ∷ l ∷ rest) r h = stop _ l (length (typ ∷ l ∷ rest)) h
  where
    stop :
        (next : Result) (l size : ℕ)
        → (l < 2) ⊎ (size < l)
        → (if ltb l 2 || ltb size l then r else next) ≡ r
    stop next l size h = ground arith

parse_reads :
    (n : ℕ) (attrs : Bytes) (r : Result)
    → 2 ≤ byte_at 1 attrs
    → byte_at 1 attrs ≤ length attrs
    → parse_nak_detail_from (suc n) attrs r
      ≡ parse_nak_detail_from n
          (drop (byte_at 1 attrs) attrs)
          (note_attr (byte_at 0 attrs) (slice 2 (byte_at 1 attrs) attrs) r)
unfolding parse_nak_detail_from
parse_reads n [] r low high = absurd (omega arith)
parse_reads n (typ ∷ []) r low high = absurd (omega arith)
parse_reads n (typ ∷ l ∷ rest) r low high = go _ l (length (typ ∷ l ∷ rest)) low high
  where
    go :
        (next : Result) (l size : ℕ)
        → 2 ≤ l
        → l ≤ size
        → (if ltb l 2 || ltb size l then r else next) ≡ next
    go next l size low high = ground arith

-- With as much fuel as there are bytes, the function walks to the end.
parse-Walk :
    (n : ℕ) (attrs : Bytes) (r : Result)
    → length attrs ≤ n
    → Walk attrs r (parse_nak_detail_from n attrs r)
unfolding parse_nak_detail_from
parse-Walk zero attrs r h = ends (omega arith)
parse-Walk (suc n) [] r h = ends (omega arith)
parse-Walk (suc n) (typ ∷ []) r h = ends (omega arith)
parse-Walk (suc n) (typ ∷ l ∷ rest) r h =
    if-cases (λ e. Walk (typ ∷ l ∷ rest) r e) (ltb l 2 || ltb (length (typ ∷ l ∷ rest)) l)
      (λ b. breaks (omega arith) (bad l (length (typ ∷ l ∷ rest)) b))
      (λ g.
        let (low, high) = good l (length (typ ∷ l ∷ rest)) g in
        reads low high (
          parse-Walk n (drop l (typ ∷ l ∷ rest)) (note_attr typ (slice 2 l (typ ∷ l ∷ rest)) r)
            (omega (arith, length-drop l (typ ∷ l ∷ rest)))))

-- And nothing else is the end of the walk.
Walk-unique :
    (n : ℕ) {attrs : Bytes} {r end : Result}
    → length attrs ≤ n
    → Walk attrs r end
    → end ≡ parse_nak_detail_from n attrs r
Walk-unique n h (ends few) = sym (parse_few n _ _ few)
Walk-unique n h (breaks many broken) = sym (parse_broken n _ _ broken)
Walk-unique zero h (reads low high walk) = absurd (omega arith)
Walk-unique (suc n) {attrs = attrs} h (reads low high walk) =
    Walk-unique n (omega (arith, length-drop (byte_at 1 attrs) attrs)) walk
    ∙ sym (parse_reads n attrs _ low high)

-- The loop ends on every input, a malformed one included, with one result: the one that
-- parse_nak_detail computes.
pub parse_nak_detail_terminates :
    (attrs : Bytes) (r end : Result) → Walk attrs r end ↔ (end ≡ parse_nak_detail attrs r)
parse_nak_detail_terminates attrs r end = (
  Walk-unique (length attrs) (omega arith),
  λ e. subst (λ x. Walk attrs r x) (sym e) (parse-Walk (length attrs) attrs r (omega arith)),
)
