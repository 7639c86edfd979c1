-- ===== src/Path/Meta/Fields.antt =====
-- The packed word behaves as a record of independent fields.
use mathlib.Core.Path.{ap₂}
use narthex.Prelude.{
  ℕ, ◌+◌, ◌-◌, ◌*◌, ◌^◌, ◌<◌, ◌≡◌, refl, ap, ◌∙◌, Bool, true, false, not, bit_and, bit_or, arith,
  ◌==◌,
}
use narthex.Prelude.Words.{not64, ◌<<<◌, ◌>>>◌}
use narthex.Prelude.Bits.{
  bit_and_fields, bit_and_mask, bit_and-zero, bit_or-zero, zero-bit_or, bit_and_split, bit_or_split,
}
use narthex.Path.Meta.Flags.{
  flags_of, or_owned, or_invalid, or_normalized, and_invalid, and_normalized, has_owned,
  has_invalid, has_normalized,
}
use narthex.Path.Meta.{
  path_flag_owned, path_flag_invalid, path_flag_normalized, path_magic, path_len, path_cap,
  path_set_len, path_set_cap, path_has, path_set_flag, path_clr_flag, path_alive, path_meta_init,
}

-- The word of a live path.
pub meta_of : ℕ → ℕ → Bool → Bool → Bool → ℕ
meta_of len cap owned invalid normalized =
    path_magic * 2 ^ 40 + flags_of owned invalid normalized * 2 ^ 32 + cap * 2 ^ 16 + len

-- A field is cleared by a mask with zeros in its place, and filled by `|`.
put_low :
    (h l v : ℕ)
    → h < 2 ^ 48
    → l < 2 ^ 16
    → v < 2 ^ 16
    → bit_or (bit_and (h * 2 ^ 16 + l) (not64 0xffff)) v ≡ h * 2 ^ 16 + v
put_low h l v hh hl hv =
    bit_or_split 16 h 0 0 v cleared (omega arith) (omega arith) hv ∙ rw (bit_or-zero, zero-bit_or)
  where
    cleared : bit_and (h * 2 ^ 16 + l) (not64 0xffff) ≡ h * 2 ^ 16 + 0
    cleared =
        bit_and_split 16 h l (2 ^ 48 - 1) 0 refl refl hl (omega arith)
        ∙ rw (bit_and_mask 48 h, bit_and-zero) (omega arith)

put_second :
    (h c l v : ℕ)
    → h < 2 ^ 32
    → c < 2 ^ 16
    → l < 2 ^ 16
    → v < 2 ^ 16
    → bit_or (bit_and ((h * 2 ^ 16 + c) * 2 ^ 16 + l) (not64 (0xffff * 2 ^ 16))) (v * 2 ^ 16)
      ≡ (h * 2 ^ 16 + v) * 2 ^ 16 + l
put_second h c l v hh hc hl hv =
    bit_or_split 16 (h * 2 ^ 16 + 0) l v 0 cleared (omega arith) hl (omega arith)
    ∙ rw (bit_or-zero, high) refl
  where
    inner : bit_and (h * 2 ^ 16 + c) ((2 ^ 32 - 1) * 2 ^ 16 + 0) ≡ h * 2 ^ 16 + 0
    inner =
        bit_and_fields 16 h c (2 ^ 32 - 1) 0 hc (omega arith)
        ∙ rw (bit_and_mask 32 h, bit_and-zero) (omega arith)

    cleared :
        bit_and ((h * 2 ^ 16 + c) * 2 ^ 16 + l) (not64 (0xffff * 2 ^ 16))
        ≡ (h * 2 ^ 16 + 0) * 2 ^ 16 + l
    cleared =
        bit_and_split 16 (h * 2 ^ 16 + c) l ((2 ^ 32 - 1) * 2 ^ 16 + 0) (2 ^ 16 - 1) refl refl hl
          (omega arith)
        ∙ rw (inner, bit_and_mask 16 l) (omega arith)

    high : bit_or (h * 2 ^ 16 + 0) v ≡ h * 2 ^ 16 + v
    high =
        bit_or_split 16 h 0 0 v refl (omega arith) (omega arith) hv ∙ rw (bit_or-zero, zero-bit_or)

or_flags :
    (g f l x : ℕ)
    → f < 2 ^ 8
    → x < 2 ^ 8
    → l < 2 ^ 32
    → bit_or ((g * 2 ^ 8 + f) * 2 ^ 32 + l) (x * 2 ^ 32) ≡ (g * 2 ^ 8 + bit_or f x) * 2 ^ 32 + l
or_flags g f l x hf hx hl =
    bit_or_split 32 (g * 2 ^ 8 + f) l x 0 refl (omega arith) hl (omega arith)
    ∙ rw (bit_or-zero, high) refl
  where
    high : bit_or (g * 2 ^ 8 + f) x ≡ g * 2 ^ 8 + bit_or f x
    high = bit_or_split 8 g f 0 x refl (omega arith) hf hx ∙ rw bit_or-zero

and_flags :
    (g f l x : ℕ)
    → g < 2 ^ 24
    → f < 2 ^ 8
    → x < 2 ^ 8
    → l < 2 ^ 32
    → bit_and ((g * 2 ^ 8 + f) * 2 ^ 32 + l) (((2 ^ 24 - 1) * 2 ^ 8 + x) * 2 ^ 32 + (2 ^ 32 - 1))
      ≡ (g * 2 ^ 8 + bit_and f x) * 2 ^ 32 + l
and_flags g f l x hg hf hx hl =
    bit_and_fields 32 (g * 2 ^ 8 + f) l ((2 ^ 24 - 1) * 2 ^ 8 + x) (2 ^ 32 - 1) hl (omega arith)
    ∙ rw (high, bit_and_mask 32 l) (omega arith)
  where
    high : bit_and (g * 2 ^ 8 + f) ((2 ^ 24 - 1) * 2 ^ 8 + x) ≡ g * 2 ^ 8 + bit_and f x
    high = bit_and_fields 8 g f (2 ^ 24 - 1) x hf hx ∙ rw (bit_and_mask 24 g) (omega arith)

flags_of-lt : (o i n : Bool) → flags_of o i n < 2 ^ 8
flags_of-lt o i n = ground arith

module _ (len cap : ℕ) (owned invalid normalized : Bool) (hl : len < 2 ^ 16)
    (hc : cap < 2 ^ 16) where
  pub path_alive-meta_of : path_alive (meta_of len cap owned invalid normalized) ≡ true
  unfolding path_alive meta_of
  path_alive-meta_of = rw (bit_and_mask 24 _) (ground arith)

  pub path_len-meta_of : path_len (meta_of len cap owned invalid normalized) ≡ len
  unfolding path_len meta_of
  path_len-meta_of = bit_and_mask 16 _ ∙ ground arith

  pub path_cap-meta_of : path_cap (meta_of len cap owned invalid normalized) ≡ cap
  unfolding path_cap meta_of
  path_cap-meta_of = bit_and_mask 16 _ ∙ ground arith

  pub path_set_len-meta_of :
      (v : ℕ)
      → v < 2 ^ 16
      → path_set_len (meta_of len cap owned invalid normalized) v
        ≡ meta_of v cap owned invalid normalized
  unfolding path_set_len meta_of
  path_set_len-meta_of v hv =
      ap₂ bit_or (ap₂ bit_and word refl) low
      ∙ (put_low (path_magic * 2 ^ 24 + flags_of owned invalid normalized * 2 ^ 16 + cap) len v
            (omega (arith, flags_of-lt owned invalid normalized)) hl hv
          ∙ omega arith)
    where
      word :
          meta_of len cap owned invalid normalized
          ≡ (path_magic * 2 ^ 24 + flags_of owned invalid normalized * 2 ^ 16 + cap) * 2 ^ 16 + len
      word = omega arith

      low : (bit_and v 0xffff <<< 0) ≡ v
      low = rw (bit_and_mask 16 v) (omega arith)

  pub path_set_cap-meta_of :
      (v : ℕ)
      → v < 2 ^ 16
      → path_set_cap (meta_of len cap owned invalid normalized) v
        ≡ meta_of len v owned invalid normalized
  unfolding path_set_cap meta_of
  path_set_cap-meta_of v hv =
      ap₂ bit_or (ap₂ bit_and word refl) second
      ∙ (put_second (path_magic * 2 ^ 8 + flags_of owned invalid normalized) cap len v
            (omega (arith, flags_of-lt owned invalid normalized)) hc hl hv
          ∙ omega arith)
    where
      word :
          meta_of len cap owned invalid normalized
          ≡ ((path_magic * 2 ^ 8 + flags_of owned invalid normalized) * 2 ^ 16 + cap) * 2 ^ 16 + len
      word = omega arith

      second : (bit_and v 0xffff <<< 16) ≡ v * 2 ^ 16
      second = rw (bit_and_mask 16 v) (omega arith)

  flag_word :
      meta_of len cap owned invalid normalized
      ≡ (path_magic * 2 ^ 8 + flags_of owned invalid normalized) * 2 ^ 32 + (cap * 2 ^ 16 + len)
  unfolding meta_of
  flag_word = omega arith

  path_set_flag-or :
      (f : ℕ)
      → f < 2 ^ 8
      → path_set_flag (meta_of len cap owned invalid normalized) f
        ≡ (path_magic * 2 ^ 8 + bit_or (flags_of owned invalid normalized) f) * 2 ^ 32
          + (cap * 2 ^ 16 + len)
  unfolding path_set_flag meta_of
  path_set_flag-or f hf =
      ap₂ bit_or flag_word (omega arith)
      ∙ or_flags path_magic _ (cap * 2 ^ 16 + len) f (flags_of-lt owned invalid normalized) hf
          (omega arith)

  path_clr_flag-and :
      (f : ℕ)
      → f < 2 ^ 8
      → path_clr_flag (meta_of len cap owned invalid normalized) f
        ≡ (path_magic * 2 ^ 8 + bit_and (flags_of owned invalid normalized) (255 - f)) * 2 ^ 32
          + (cap * 2 ^ 16 + len)
  unfolding path_clr_flag meta_of
  path_clr_flag-and f hf =
      ap₂ bit_and flag_word (omega arith)
      ∙ and_flags path_magic _ (cap * 2 ^ 16 + len) (255 - f) (omega arith)
          (flags_of-lt owned invalid normalized) (omega arith) (omega arith)

  path_has-and :
      (f : ℕ)
      → f < 2 ^ 8
      → path_has (meta_of len cap owned invalid normalized) f
        ≡ not (bit_and (flags_of owned invalid normalized) f == 0)
  unfolding path_has meta_of
  path_has-and f hf = ap (λ t. not (t == 0)) flag_byte
    where
      high :
          meta_of len cap owned invalid normalized >>> 32
          ≡ path_magic * 2 ^ 8 + flags_of owned invalid normalized
      high = omega (arith, flags_of-lt owned invalid normalized)

      flag_byte :
          bit_and (meta_of len cap owned invalid normalized >>> 32) f
          ≡ bit_and (flags_of owned invalid normalized) f
      flag_byte =
          bit_and_split 8 path_magic (flags_of owned invalid normalized) 0 f high (omega arith)
            (flags_of-lt owned invalid normalized) hf
          ∙ omega arith

  pub set_invalid-meta_of :
      path_set_flag (meta_of len cap owned invalid normalized) path_flag_invalid
      ≡ meta_of len cap owned true normalized
  unfolding meta_of
  set_invalid-meta_of = path_set_flag-or 2 (omega arith) ∙ rw or_invalid (omega arith)

  pub set_owned-meta_of :
      path_set_flag (meta_of len cap owned invalid normalized) path_flag_owned
      ≡ meta_of len cap true invalid normalized
  unfolding meta_of
  set_owned-meta_of = path_set_flag-or 1 (omega arith) ∙ rw or_owned (omega arith)

  pub set_normalized-meta_of :
      path_set_flag (meta_of len cap owned invalid normalized) path_flag_normalized
      ≡ meta_of len cap owned invalid true
  unfolding meta_of
  set_normalized-meta_of = path_set_flag-or 4 (omega arith) ∙ rw or_normalized (omega arith)

  pub clr_invalid-meta_of :
      path_clr_flag (meta_of len cap owned invalid normalized) path_flag_invalid
      ≡ meta_of len cap owned false normalized
  unfolding meta_of
  clr_invalid-meta_of = path_clr_flag-and 2 (omega arith) ∙ rw and_invalid (omega arith)

  pub clr_normalized-meta_of :
      path_clr_flag (meta_of len cap owned invalid normalized) path_flag_normalized
      ≡ meta_of len cap owned invalid false
  unfolding meta_of
  clr_normalized-meta_of = path_clr_flag-and 4 (omega arith) ∙ rw and_normalized (omega arith)

  pub has_owned-meta_of :
      path_has (meta_of len cap owned invalid normalized) path_flag_owned ≡ owned
  has_owned-meta_of = path_has-and 1 (omega arith) ∙ has_owned owned invalid normalized

  pub has_invalid-meta_of :
      path_has (meta_of len cap owned invalid normalized) path_flag_invalid ≡ invalid
  has_invalid-meta_of = path_has-and 2 (omega arith) ∙ has_invalid owned invalid normalized

  pub has_normalized-meta_of :
      path_has (meta_of len cap owned invalid normalized) path_flag_normalized ≡ normalized
  has_normalized-meta_of = path_has-and 4 (omega arith) ∙ has_normalized owned invalid normalized

-- The word that every set-up starts from.
pub meta_init-eq : path_meta_init ≡ meta_of 0 0 false false false
unfolding meta_of
meta_init-eq = refl
