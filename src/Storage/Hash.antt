-- ===== src/Storage/Hash.antt =====
-- `shortHash`: FNV-1a over the code units. JavaScript's `^` and `<<` give signed 32-bit integers,
-- `+` adds them exactly, and `>>> 0` takes the sum modulo 2 ^ 32.
use Prim.Native.Nat.{bit_xor}
use konku.Common.{
  ℕ, ◌+◌, ◌-◌, ◌*◌, ◌%◌, ◌^◌, ◌<◌, ◌≡◌, refl, ◌∙◌, Text, [], ◌∷◌, ltb, if◌then◌else◌, arith,
}
use konku.Common.Int.{ℤ, pos, negsuc, ◌+ℤ◌}
use konku.Common.Digits.{to_digits, from_digits, from_digits-to_digits}

abbrev pub word : ℕ
word = 4294967296

-- ToInt32 and ToUint32 of the language.
unfoldable pub to_int32 : ℕ → ℤ
to_int32 x = if ltb (x % word) 2147483648 then pos (x % word) else negsuc (word - 1 - x % word)

unfoldable pub to_uint32 : ℤ → ℕ
to_uint32 (pos n) = n % word
to_uint32 (negsuc n) = word - 1 - n % word

-- `h << k`.
unfoldable pub shl : ℤ → ℕ → ℤ
unfolding to_int32 to_uint32
shl h k = to_int32 (to_uint32 h * 2 ^ k)

-- One round of the loop.
unfoldable pub hash_step : ℕ → ℕ → ℕ
hash_step h c =
    let x = to_int32 (bit_xor h c) in
    to_uint32 (x +ℤ shl x 1 +ℤ shl x 4 +ℤ shl x 7 +ℤ shl x 8 +ℤ shl x 24)

unfoldable pub hash_from : ℕ → Text → ℕ
hash_from h [] = h
hash_from h (c ∷ s) = hash_from (hash_step h c) s

abbrev pub offset_basis : ℕ
offset_basis = 0x811c9dc5

unfoldable pub short_hash : Text → Text
short_hash value = to_digits 36 (hash_from offset_basis value)

to_uint32-to_int32 : (x : ℕ) → to_uint32 (to_int32 x) ≡ x % word
unfolding to_uint32 to_int32
to_uint32-to_int32 x = ground arith

to_uint32-add : (a b : ℤ) → to_uint32 (a +ℤ b) ≡ (to_uint32 a + to_uint32 b) % word
unfolding to_uint32 ◌+ℤ◌
to_uint32-add a b = ground arith

to_uint32-shl : (h : ℤ) (k : ℕ) → to_uint32 (shl h k) ≡ to_uint32 h * 2 ^ k % word
unfolding shl
to_uint32-shl h k = to_uint32-to_int32 (to_uint32 h * 2 ^ k)

prime_sum :
    (e : ℕ)
    → (((((e % word + e % word * 2 % word) % word + e % word * 16 % word) % word
                  + e % word * 128 % word)
                % word
              + e % word * 256 % word)
            % word
          + e % word * 16777216 % word)
        % word
      ≡ e * 16777619 % word
prime_sum e = omega arith

-- The six shifted terms are one multiplication by the FNV prime modulo 2 ^ 32, of the exclusive
-- or, however their signs fall.
pub hash_step_lem : (h c : ℕ) → hash_step h c ≡ bit_xor h c * 16777619 % word
unfolding hash_step
hash_step_lem h c =
    simp (to_uint32-add, to_uint32-shl, to_uint32-to_int32) (prime_sum (bit_xor h c))

pub hash_step-lt : (h c : ℕ) → hash_step h c < word
hash_step-lt h c = rw (hash_step_lem h c) (omega arith)

-- FNV-1a, as it is specified: multiply the exclusive or by the prime, modulo 2 ^ 32.
unfoldable pub fnv1a : ℕ → Text → ℕ
fnv1a h [] = h
fnv1a h (c ∷ s) = fnv1a (bit_xor h c * 16777619 % word) s

pub hash_from_lem : (h : ℕ) (s : Text) → hash_from h s ≡ fnv1a h s
unfolding hash_from fnv1a
hash_from_lem h [] = refl
hash_from_lem h (c ∷ s) = rw (hash_step_lem h c) (hash_from_lem (bit_xor h c * 16777619 % word) s)

-- The hash of a string is the 32-bit FNV-1a of its code units, and the key's suffix writes that
-- number out whole: read back in base 36 it is the number again.
pub short_hash_lem : (value : Text) → from_digits 36 0 (short_hash value) ≡ fnv1a offset_basis value
unfolding short_hash
short_hash_lem value =
    from_digits-to_digits 36 (omega arith) (omega arith) (hash_from offset_basis value)
    ∙ hash_from_lem offset_basis value
