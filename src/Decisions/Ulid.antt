-- ===== src/Decisions/Ulid.antt =====
-- internal/decisions/ulid.go: the identifier of an event, from the clock in milliseconds and ten random
-- bytes. Bytes are numbers below 256, and a text is the list of its bytes. `none` is the panic when
-- there are no random bytes.
use Prim.Native.Nat.{zero, suc}
use grunyas.Prelude.{ℕ, ◌+◌, ◌-◌, ◌*◌, ◌/◌, ◌%◌, ◌^◌, Option, none, some, List, [], ◌∷◌, ◌++◌, map}
use grunyas.Classifier.Text.{Text, codes}

-- An element; 0 past the end, as the source has for the byte after the last.
unfoldable pub byte_at : List ℕ → ℕ → ℕ
byte_at [] i = 0
byte_at (b ∷ bs) zero = b
byte_at (b ∷ bs) (suc i) = byte_at bs i

-- i, i + 1, ..., n in all.
unfoldable pub indices : ℕ → ℕ → List ℕ
indices i zero = []
indices i (suc n) = i ∷ indices (i + 1) n

unfoldable pub encoding : Text
encoding = codes "0123456789ABCDEFGHJKMNPQRSTVWXYZ"

-- The time, from the highest of its six bytes.
unfoldable pub time_bytes : ℕ → List ℕ
time_bytes now =
    (now / 2 ^ 40 % 256)
    ∷ (now / 2 ^ 32 % 256)
    ∷ (now / 2 ^ 24 % 256)
    ∷ (now / 2 ^ 16 % 256)
    ∷ (now / 2 ^ 8 % 256)
    ∷ (now % 256)
    ∷ []

-- The five bits from bit `i * 5` on.
unfoldable pub five_bits : List ℕ → ℕ → ℕ
unfolding byte_at
five_bits src i =
    (byte_at src (i * 5 / 8) * 256 + byte_at src (i * 5 / 8 + 1)) / 2 ^ (16 - 5 - i * 5 % 8) % 32

unfoldable pub encode : List ℕ → Text
unfolding five_bits indices byte_at encoding
encode src = map (λ i. byte_at encoding (five_bits src i)) (indices 0 26)

unfoldable pub new_ulid : ℕ → Option (List ℕ) → Option Text
unfolding time_bytes encode
new_ulid now none = none
new_ulid now (some random) = some (encode (time_bytes now ++ random))
