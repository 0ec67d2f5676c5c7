-- ===== src/Ical/Utf8.antt =====
-- The decoding of the first bytes of an encoded text, in app/ical.py.
use fincal.Prelude.{
  ℕ, zero, suc, ◌+◌, ◌-◌, ◌*◌, ◌/◌, ◌%◌, ◌<◌, ◌≡◌, refl, ap, ◌∙◌, Bool, true, false, none, List, [],
  ◌∷◌, ◌++◌, ◌&&◌, ◌||◌, ltb, leb, length, arith, inl, inr, Bool-cases,
}
use fincal.Prelude.Text.{take}
use fincal.Ical.Fold.{utf8, prepend, complete, following, lead_bits, decode_from, decode}

-- The code points that a text may have.
abbrev pub is_scalar : ℕ → Bool
is_scalar c = ltb c 55296 || (leb 57344 c && ltb c 1114112)

decode_from-zero : (acc : ℕ) (bs : List ℕ) → decode_from 0 acc bs ≡ decode bs
unfolding decode_from
decode_from-zero acc [] = refl
decode_from-zero acc (b ∷ bs) = refl

-- A byte after the first one adds its six bits.
decode_next :
    (need acc x : ℕ) (bs : List ℕ)
    → x < 64
    → decode_from (suc need) acc ((128 + x) ∷ bs)
      ≡ complete need (acc * 64 + x) (decode_from need (acc * 64 + x) bs)
unfolding decode_from
decode_next need acc x bs h =
    let is_next : (leb 128 (128 + x) && ltb (128 + x) 192) ≡ true = ground arith in
    let bits : acc * 64 + ((128 + x) - 128) ≡ acc * 64 + x = omega arith in rw (is_next, bits) refl

decode_next_last :
    (acc x : ℕ) (bs : List ℕ)
    → x < 64
    → decode_from 1 acc ((128 + x) ∷ bs) ≡ prepend (acc * 64 + x) (decode bs)
decode_next_last acc x bs h =
    decode_next 0 acc x bs h ∙ ap (prepend (acc * 64 + x)) (decode_from-zero (acc * 64 + x) bs)

decode_lead :
    (b need bits : ℕ) (bs : List ℕ)
    → (leb 192 b && ltb b 248) ≡ true
    → following b ≡ need
    → lead_bits b ≡ bits
    → decode (b ∷ bs) ≡ decode_from need bits bs
unfolding decode_from
decode_lead b need bits bs lead n x =
    let high : ltb b 128 ≡ false = ground (arith, lead) in rw (high, lead, n, x) refl

following_ascii : (c : ℕ) → ltb c 128 ≡ true → following c ≡ 0
unfolding following
following_ascii c h = ground (arith, h)

decode_ascii : (c : ℕ) (bs : List ℕ) → ltb c 128 ≡ true → decode (c ∷ bs) ≡ prepend c (decode bs)
unfolding decode_from
decode_ascii c bs h =
    rw (h, following_ascii c h) (ap (prepend c) (decode_from-zero (lead_bits c) bs))

pub decode-utf8 :
    (c : ℕ) (bs : List ℕ) → is_scalar c ≡ true → decode (utf8 c ++ bs) ≡ prepend c (decode bs)
unfolding following lead_bits
decode-utf8 c bs h = elim (Bool-cases (ltb c 128)) [
  | inl one ↦ rw one (decode_ascii c bs one)
  | inr more ↦ elim (Bool-cases (ltb c 2048)) [
    | inl two ↦
        rw (more, two)
          (decode_lead (192 + c / 64) 1 (c / 64) ((128 + c % 64) ∷ bs) (ground arith) (ground arith)
              (ground arith)
            ∙ decode_next_last (c / 64) (c % 64) bs (omega arith)
            ∙ ap (λ n. prepend n (decode bs)) (omega arith))
    | inr more2 ↦ elim (Bool-cases (ltb c 65536)) [
      | inl three ↦
          rw (more, more2, three)
            (decode_lead (224 + c / 4096) 2 (c / 4096) ((128 + c / 64 % 64) ∷ (128 + c % 64) ∷ bs)
                (ground arith) (ground arith) (ground arith)
              ∙ decode_next 1 (c / 4096) (c / 64 % 64) ((128 + c % 64) ∷ bs) (omega arith)
              ∙ decode_next_last (c / 4096 * 64 + c / 64 % 64) (c % 64) bs (omega arith)
              ∙ ap (λ n. prepend n (decode bs)) (omega arith))
      | inr four ↦
          let low : c < 1114112 = ground (arith, h) in
          rw (more, more2, four)
            (decode_lead (240 + c / 262144) 3 (c / 262144)
                ((128 + c / 4096 % 64) ∷ (128 + c / 64 % 64) ∷ (128 + c % 64) ∷ bs) (ground arith)
                (ground arith) (ground arith)
              ∙ decode_next 2 (c / 262144) (c / 4096 % 64)
                  ((128 + c / 64 % 64) ∷ (128 + c % 64) ∷ bs) (omega arith)
              ∙ decode_next 1 (c / 262144 * 64 + c / 4096 % 64) (c / 64 % 64) ((128 + c % 64) ∷ bs)
                  (omega arith)
              ∙ decode_next_last ((c / 262144 * 64 + c / 4096 % 64) * 64 + c / 64 % 64) (c % 64) bs
                  (omega arith)
              ∙ ap (λ n. prepend n (decode bs)) (omega arith))
    ]
  ]
]

-- A text that ends within a code point is no text.
cut_off : (need acc : ℕ) → decode_from (suc need) acc [] ≡ none
unfolding decode_from
cut_off need acc = refl

cut_after_lead :
    (b need bits : ℕ)
    → (leb 192 b && ltb b 248) ≡ true
    → following b ≡ suc need
    → lead_bits b ≡ bits
    → decode (b ∷ []) ≡ none
cut_after_lead b need bits lead n x = decode_lead b (suc need) bits [] lead n x ∙ cut_off need bits

cut_after_next :
    (need acc x : ℕ) → x < 64 → decode_from (suc (suc need)) acc ((128 + x) ∷ []) ≡ none
cut_after_next need acc x h = decode_next (suc need) acc x [] h ∙ cut_off need (acc * 64 + x)

abbrev pub size : ℕ → ℕ
size c = length (utf8 c)

module _ (c : ℕ) (bs : List ℕ) (more : ltb c 128 ≡ false) where
  cut_two : (k : ℕ) → ltb c 2048 ≡ true → suc k < 2 → decode (take (suc k) (utf8 c ++ bs)) ≡ none
  unfolding following lead_bits
  cut_two zero two h =
      rw (more, two)
        (cut_after_lead (192 + c / 64) 0 (c / 64) (ground arith) (ground arith) (ground arith))
  cut_two (suc k) two h = absurd (omega (arith, h))

  module _ (more2 : ltb c 2048 ≡ false) where
    cut_three :
        (k : ℕ) → ltb c 65536 ≡ true → suc k < 3 → decode (take (suc k) (utf8 c ++ bs)) ≡ none
    unfolding following lead_bits
    cut_three zero three h =
        rw (more, more2, three)
          (cut_after_lead (224 + c / 4096) 1 (c / 4096) (ground arith) (ground arith)
            (ground arith))
    cut_three (suc zero) three h =
        rw (more, more2, three)
          (decode_lead (224 + c / 4096) 2 (c / 4096) ((128 + c / 64 % 64) ∷ []) (ground arith)
              (ground arith) (ground arith)
            ∙ cut_after_next 0 (c / 4096) (c / 64 % 64) (omega arith))
    cut_three (suc (suc k)) three h = absurd (omega (arith, h))

    cut_four :
        (k : ℕ)
        → is_scalar c ≡ true
        → ltb c 65536 ≡ false
        → suc k < 4
        → decode (take (suc k) (utf8 c ++ bs)) ≡ none
    unfolding following lead_bits
    cut_four zero scalar four h =
        let low : c < 1114112 = ground (arith, scalar) in
        rw (more, more2, four)
          (cut_after_lead (240 + c / 262144) 2 (c / 262144) (ground arith) (ground arith)
            (ground arith))
    cut_four (suc zero) scalar four h =
        let low : c < 1114112 = ground (arith, scalar) in
        rw (more, more2, four)
          (decode_lead (240 + c / 262144) 3 (c / 262144) ((128 + c / 4096 % 64) ∷ []) (ground arith)
              (ground arith) (ground arith)
            ∙ cut_after_next 1 (c / 262144) (c / 4096 % 64) (omega arith))
    cut_four (suc (suc zero)) scalar four h =
        let low : c < 1114112 = ground (arith, scalar) in
        let x = c / 4096 % 64 in
        let y = c / 64 % 64 in
        rw (more, more2, four)
          (decode_lead (240 + c / 262144) 3 (c / 262144) ((128 + x) ∷ (128 + y) ∷ []) (ground arith)
              (ground arith) (ground arith)
            ∙ decode_next 2 (c / 262144) x ((128 + y) ∷ []) (omega arith)
            ∙ cut_after_next 0 (c / 262144 * 64 + x) y (omega arith))
    cut_four (suc (suc (suc k))) scalar four h = absurd (omega (arith, h))

pub decode_partial :
    (c k : ℕ) (bs : List ℕ)
    → is_scalar c ≡ true
    → suc k < size c
    → decode (take (suc k) (utf8 c ++ bs)) ≡ none
decode_partial c k bs h small = elim (Bool-cases (ltb c 128)) [
  | inl one ↦ absurd (ground (arith, rw one at small))
  | inr more ↦ elim (Bool-cases (ltb c 2048)) [
    | inl two ↦ cut_two c bs more k two (rw (more, two) at small)
    | inr more2 ↦ elim (Bool-cases (ltb c 65536)) [
      | inl three ↦ cut_three c bs more more2 k three (rw (more, more2, three) at small)
      | inr four ↦ cut_four c bs more more2 k h four (rw (more, more2, four) at small)
    ]
  ]
]
