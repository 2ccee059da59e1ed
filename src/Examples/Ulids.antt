-- ===== src/Examples/Ulids.antt =====
-- An identifier of internal/decisions/ulid.go.
use grunyas.Prelude.{◌≡◌, ◌<◌, ◌++◌, refl, some, [], ◌∷◌, length, arith, List, ◌^◌, ℕ}
use grunyas.Classifier.Text.{Text}
use grunyas.Decisions.Ulid.{new_ulid, time_bytes}
use grunyas.Decisions.Decode.{decode, time_of, decode-new_ulid}

abbrev random : List ℕ
random = 255 ∷ 1 ∷ 2 ∷ 3 ∷ 4 ∷ 5 ∷ 6 ∷ 7 ∷ 128 ∷ 64 ∷ []

decode-new_ulid_example :
    (t : Text) × (new_ulid 1700000000000 (some random) ≡ some t)
    × (decode t ≡ time_bytes 1700000000000 ++ random)
    × (time_of (decode t) ≡ 1700000000000)
    × (length t ≡ 26)
decode-new_ulid_example = decode-new_ulid 1700000000000 random early refl (
  omega arith,
  (
    omega arith,
    (
      omega arith,
      (
        omega arith,
        (
          omega arith,
          (omega arith, (omega arith, (omega arith, (omega arith, (omega arith, tt))))),
        ),
      ),
    ),
  ),
)
  where
    early : 1700000000000 < 2 ^ 48
    early = omega arith
