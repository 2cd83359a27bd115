-- ===== src/Base/Binary.antt =====
-- Byte strings: []byte of a string (UTF-8), hex.EncodeToString and fields with their length in
-- front, as encoding/binary writes it.
use Prim.Native.Nat.{ℕ, ◌+◌, ◌/◌, ◌%◌, ◌^◌, ◌<◌}
use mathlib.Core.Path.{◌≡◌, refl}
use mathlib.Core.List.{List, [], ◌∷◌, ◌++◌}
use native.Mathlib.Omega.{arith}
use anix_ops_sd_wan.Base.Tests.{ltb, if◌then◌else◌}
use anix_ops_sd_wan.Base.Strings.{Text}
use anix_ops_sd_wan.Base.Lists.{length}

abbrev pub Bytes : Type 0
Bytes = List ℕ

-- The bytes of a rune in front of others.
unfoldable pub rune_bytes : ℕ → Bytes → Bytes
rune_bytes c rest =
    if ltb c 0x80
    then c ∷ rest
    else if ltb c 0x800
    then (192 + c / 64) ∷ (128 + c % 64) ∷ rest
    else if ltb c 0x10000
    then (224 + c / 4096) ∷ (128 + c / 64 % 64) ∷ (128 + c % 64) ∷ rest
    else (240 + c / 262144) ∷ (128 + c / 4096 % 64) ∷ (128 + c / 64 % 64) ∷ (128 + c % 64) ∷ rest

-- []byte(s)
unfoldable pub utf8 : Text → Bytes
utf8 [] = []
utf8 (c ∷ s) = rune_bytes c (utf8 s)

rune_bytes_inj : (c d : ℕ) (r s : Bytes) → rune_bytes c r ≡ rune_bytes d s → (c ≡ d) × (r ≡ s)
unfolding rune_bytes
rune_bytes_inj c d r s h = ground arith

pub utf8_inj : (s t : Text) → utf8 s ≡ utf8 t → s ≡ t
unfolding utf8 rune_bytes
utf8_inj [] [] h = refl
utf8_inj [] (d ∷ t) h = ground arith
utf8_inj (c ∷ s) [] h = ground arith
utf8_inj (c ∷ s) (d ∷ t) h =
    let (e, r) = rune_bytes_inj c d (utf8 s) (utf8 t) h in cc (e, utf8_inj s t r)

-- uint32(n) in big-endian order, in front of the other bytes
abbrev pub big_endian : ℕ → Bytes → Bytes
big_endian n rest = (n / 16777216 % 256) ∷ (n / 65536 % 256) ∷ (n / 256 % 256) ∷ (n % 256) ∷ rest

big_endian_inj :
    (m n : ℕ) (r s : Bytes)
    → m < 2 ^ 32
    → n < 2 ^ 32
    → big_endian m r ≡ big_endian n s
    → (m ≡ n) × (r ≡ s)
big_endian_inj m n r s hm hn h = ground arith

-- A field behind its length.
unfoldable pub prefixed : Bytes → Bytes → Bytes
prefixed field rest = big_endian (length field) (field ++ rest)

append_parts : (f g r s : Bytes) → length f ≡ length g → f ++ r ≡ g ++ s → (f ≡ g) × (r ≡ s)
append_parts [] [] r s e h = (refl, h)
append_parts [] (y ∷ g) r s e h = ground arith
append_parts (x ∷ f) [] r s e h = ground arith
append_parts (x ∷ f) (y ∷ g) r s e h = ground (arith, append_parts f g r s)

-- The length tells where a field ends: two fields and what follows them are told apart.
pub prefixed_inj :
    (f g r s : Bytes)
    → length f < 2 ^ 32
    → length g < 2 ^ 32
    → prefixed f r ≡ prefixed g s
    → (f ≡ g) × (r ≡ s)
unfolding prefixed
prefixed_inj f g r s hf hg h =
    let (len, rest) = big_endian_inj (length f) (length g) (f ++ r) (g ++ s) hf hg h in
    append_parts f g r s len rest

hex_digit : ℕ → ℕ
hex_digit d = if ltb d 10 then 48 + d else 87 + d

-- hex.EncodeToString
unfoldable pub hex : Bytes → Text
unfolding hex_digit
hex [] = []
hex (b ∷ bs) = hex_digit (b / 16) ∷ hex_digit (b % 16) ∷ hex bs
