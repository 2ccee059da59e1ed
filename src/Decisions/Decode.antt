-- ===== src/Decisions/Decode.antt =====
-- The identifiers of internal/decisions/ulid.go can be read back.
use Prim.Native.Nat.{zero, suc}
use grunyas.Prelude.{
  ℕ, ◌+◌, ◌-◌, ◌*◌, ◌/◌, ◌%◌, ◌^◌, ◌<◌, ◌≡◌, refl, some, List, [], ◌∷◌, ◌++◌, map, All, length,
  arith, Bool, true, ◌&&◌, ◌==◌, ap, ◌∙◌, subst, sym,
}
use grunyas.Classifier.Text.{Text}
use grunyas.Decisions.Ulid.{byte_at, indices, encoding, time_bytes, five_bits, encode, new_ulid}

-- The place of a byte in a text; the length when there is none.
unfoldable pub place : ℕ → Text → ℕ
place c [] = 0
place c (d ∷ ds) = elim (c == d) [ true ↦ 0 | _ ↦ suc (place c ds) ]

unfoldable pub places : Text → List ℕ
unfolding place
places = map (λ c. place c encoding)

-- The byte from bit `j * 8` on, of digits of five bits.
unfoldable pub eight_bits : List ℕ → ℕ → ℕ
unfolding byte_at
eight_bits ds j =
    (byte_at ds (j * 8 / 5) * 1024 + byte_at ds (j * 8 / 5 + 1) * 32 + byte_at ds (j * 8 / 5 + 2))
    / 2 ^ (7 - j * 8 % 5)
    % 256

unfoldable pub decode : Text → List ℕ
unfolding eight_bits places
decode t = map (eight_bits (places t)) (indices 0 16)

all_below : ℕ → (ℕ → Bool) → Bool
all_below zero p = true
all_below (suc n) p = p n && all_below n p

places_checked : all_below 32 (λ d. place (byte_at encoding d) encoding == d) ≡ true
unfolding place byte_at all_below encoding
places_checked = refl

cons_equal : {a b : ℕ} {xs ys : List ℕ} → a ≡ b → xs ≡ ys → (a ∷ xs) ≡ (b ∷ ys)
cons_equal p q = cc

sixteen :
    (b0 b1 b2 b3 b4 b5 b6 b7 b8 b9 b10 b11 b12 b13 b14 b15 : ℕ)
    → All
        (λ b. b < 256)
        (b0 ∷ b1 ∷ b2 ∷ b3 ∷ b4 ∷ b5 ∷ b6 ∷ b7 ∷ b8 ∷ b9 ∷ b10 ∷ b11 ∷ b12 ∷ b13 ∷ b14 ∷ b15 ∷ [])
    → map
        (eight_bits (
          map
            (five_bits (
              b0 ∷ b1 ∷ b2 ∷ b3 ∷ b4 ∷ b5 ∷ b6 ∷ b7 ∷ b8 ∷ b9 ∷ b10 ∷ b11 ∷ b12 ∷ b13 ∷ b14 ∷ b15
              ∷ []))
            (indices 0 26)))
        (indices 0 16)
      ≡ b0 ∷ b1 ∷ b2 ∷ b3 ∷ b4 ∷ b5 ∷ b6 ∷ b7 ∷ b8 ∷ b9 ∷ b10 ∷ b11 ∷ b12 ∷ b13 ∷ b14 ∷ b15 ∷ []
unfolding eight_bits five_bits byte_at indices
sixteen b0 b1 b2 b3 b4 b5 b6 b7 b8 b9 b10 b11 b12 b13 b14 b15
      (
        h0,
        (
          h1,
          (
            h2,
            (h3, (h4, (h5, (h6, (h7, (h8, (h9, (h10, (h11, (h12, (h13, (h14, (h15, h))))))))))))),
          ),
        ),
      ) =
    cons_equal (omega arith) (
      cons_equal (omega arith) (
        cons_equal (omega arith) (
          cons_equal (omega arith) (
            cons_equal (omega arith) (
              cons_equal (omega arith) (
                cons_equal (omega arith) (
                  cons_equal (omega arith) (
                    cons_equal (omega arith) (
                      cons_equal (omega arith) (
                        cons_equal (omega arith) (
                          cons_equal (omega arith) (
                            cons_equal (omega arith) (
                              cons_equal (omega arith) (
                                cons_equal (omega arith)
                                  (cons_equal (omega arith) refl)))))))))))))))

all_below_lem : (n : ℕ) (p : ℕ → Bool) (x : ℕ) → all_below n p ≡ true → x < n → p x ≡ true
unfolding all_below
all_below_lem zero p x h lt = absurd (omega arith)
all_below_lem (suc n) p x h lt = ground (arith, all_below_lem n p x)

place-byte_at : (d : ℕ) → d < 32 → place (byte_at encoding d) encoding ≡ d
place-byte_at d h =
    ground
      (arith, all_below_lem 32 (λ d. place (byte_at encoding d) encoding == d) d places_checked h)

places-encode : (src : List ℕ) → places (encode src) ≡ map (five_bits src) (indices 0 26)
unfolding places encode five_bits
places-encode src = places_each (indices 0 26)
  where
    places_each :
        (is : List ℕ)
        → map (λ c. place c encoding) (map (λ i. byte_at encoding (five_bits src i)) is)
          ≡ map (five_bits src) is
    places_each [] = refl
    places_each (i ∷ is) =
        cons_equal (place-byte_at (five_bits src i) (omega arith)) (places_each is)

-- The bytes of a list, one by one.
map-byte_at :
    (bs : List ℕ) (f : ℕ → ℕ) (i : ℕ)
    → ((k : ℕ) → f (i + k) ≡ byte_at bs k)
    → map f (indices i (length bs)) ≡ bs
unfolding byte_at indices
map-byte_at [] f i h = refl
map-byte_at (b ∷ bs) f i h =
    cons_equal (omega (arith, ap f (zero_right i), h 0))
      (map-byte_at bs f (i + 1) (λ k. ap f (suc_right i k) ∙ h (suc k)))
  where
    zero_right : (i : ℕ) → i ≡ i + 0
    zero_right i = omega arith

    suc_right : (i k : ℕ) → i + 1 + k ≡ i + suc k
    suc_right i k = omega arith

decode_bytes :
    (bs : List ℕ)
    → length bs ≡ 16
    → All (λ b. b < 256) bs
    → map (eight_bits (map (five_bits bs) (indices 0 26))) (indices 0 16) ≡ bs
decode_bytes bs n h =
    subst
      (λ xs.
        All (λ b. b < 256) xs
        → map (eight_bits (map (five_bits xs) (indices 0 26))) (indices 0 16) ≡ xs)
      (ap (λ k. map (byte_at bs) (indices 0 k)) (sym n)
        ∙ map-byte_at bs (byte_at bs) 0 (λ k. ap (byte_at bs) (plus_zero k)))
      (unfold indices in sixteen _ _ _ _ _ _ _ _ _ _ _ _ _ _ _ _) h
  where
    plus_zero : (k : ℕ) → 0 + k ≡ k
    plus_zero k = omega arith

pub decode-encode : (bs : List ℕ) → length bs ≡ 16 → All (λ b. b < 256) bs → decode (encode bs) ≡ bs
unfolding decode
decode-encode bs n h =
    ap (λ ds. map (eight_bits ds) (indices 0 16)) (places-encode bs) ∙ decode_bytes bs n h

-- What an identifier says: the time and the random bytes.
unfoldable pub time_of : List ℕ → ℕ
unfolding byte_at
time_of bs =
    ((((byte_at bs 0 * 256 + byte_at bs 1) * 256 + byte_at bs 2) * 256 + byte_at bs 3) * 256
        + byte_at bs 4)
      * 256
    + byte_at bs 5

time_of-time_bytes : (now : ℕ) (rs : List ℕ) → now < 2 ^ 48 → time_of (time_bytes now ++ rs) ≡ now
unfolding time_of time_bytes byte_at
time_of-time_bytes now rs h = omega arith

-- The identifier of a time below 2 ^ 48 milliseconds and ten random bytes is a text from which the
-- sixteen bytes, and so the time and the random bytes, are read back.
pub decode-new_ulid :
    (now : ℕ) (rs : List ℕ)
    → now < 2 ^ 48
    → length rs ≡ 10
    → All (λ b. b < 256) rs
    → (t : Text) × (new_ulid now (some rs) ≡ some t)
      × (decode t ≡ time_bytes now ++ rs)
      × (time_of (decode t) ≡ now)
      × (length t ≡ 26)
unfolding new_ulid time_bytes encode indices
decode-new_ulid now rs h n a =
    let e = decode-encode (time_bytes now ++ rs) (length_time now rs n) (bytes_time now rs a) in
    (
      encode (time_bytes now ++ rs),
      refl,
      e,
      ap time_of e ∙ time_of-time_bytes now rs h,
      encode_length (time_bytes now ++ rs),
    )
  where
    length_time : (now : ℕ) (rs : List ℕ) → length rs ≡ 10 → length (time_bytes now ++ rs) ≡ 16
    length_time now rs n = omega (arith, n)

    bytes_time :
        (now : ℕ) (rs : List ℕ) → All (λ b. b < 256) rs → All (λ b. b < 256) (time_bytes now ++ rs)
    bytes_time now rs a =
        (omega arith, (omega arith, (omega arith, (omega arith, (omega arith, (omega arith, a))))))

    encode_length : (bs : List ℕ) → length (encode bs) ≡ 26
    encode_length bs = refl
