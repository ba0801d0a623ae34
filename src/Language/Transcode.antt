-- ===== src/Language/Transcode.antt =====
-- The transcoding functions of language.c, and the table that chooses among them.
use workqueue.Language.Widths.{
  utf8_to_utf16be_len, utf16le_to_utf8_len, utf16be_to_utf8_len, utf16be_to_utf16le_len,
  utf16le_to_utf16be_len, utf8_to_utf16le_len,
}
use workqueue.Language.Copies.{
  refused, wrote, stray, refused, utf16be_to_utf16le_copy, utf16le_to_utf8_copy,
  utf8_to_utf16le_copy, Copied, utf16be_to_utf8_copy, utf16le_to_utf16be_copy, utf8_to_utf16be_copy,
}
use workqueue.Prelude.{
  ◌-◌, replicate, ◌++◌, length, ltb, ◌/◌, ◌==◌, if◌then◌else◌, Bool, Option, List, ℕ, none, some,
  true,
}

-- `_lan`
pub data Lan : Type 0 where
  utf8 utf16le utf16be : Lan

-- NULL; a new block with its contents; the address of a block that was freed before the return; or
-- a run that reads or writes where it must not.
pub data Transcoded : Type 0 where
  null : Transcoded
  block : List ℕ → Transcoded
  freed : Transcoded
  broken : Transcoded

-- The contents of a zeroed block of `size` cells after the copy, or a write behind its end.
abbrev pub into_block : ℕ → Copied → Transcoded
into_block size refused = freed
into_block size stray = broken
into_block size (wrote out) =
    if ltb size (length out) then broken else block (out ++ replicate (size - length out) 0)

-- The common body: `granted` says whether `_lan_alloc` gives a block, `width` is the size of the
-- cells in which the copy is counted.
abbrev pub transcode_with : Option ℕ → ℕ → Bool → Copied → Transcoded
transcode_with none width granted copy = broken
transcode_with (some len) width granted copy =
    if len == 0 then null else if granted then into_block (len / width) copy else null

module _ (granted : Bool) (base : Option (List ℕ)) where
  unfoldable pub utf8_to_utf16le : Transcoded
  unfolding utf8_to_utf16le_copy
  utf8_to_utf16le =
      transcode_with (utf8_to_utf16le_len base) 1 granted (utf8_to_utf16le_copy base true 0)

  unfoldable pub utf8_to_utf16be : Transcoded
  unfolding utf8_to_utf16be_copy
  utf8_to_utf16be =
      transcode_with (utf8_to_utf16be_len base) 1 granted (utf8_to_utf16be_copy base true 0)

  unfoldable pub utf16le_to_utf16be : Transcoded
  unfolding utf16le_to_utf16be_copy
  utf16le_to_utf16be =
      transcode_with (utf16le_to_utf16be_len base) 2 granted (utf16le_to_utf16be_copy base true 0)

  unfoldable pub utf16be_to_utf16le : Transcoded
  unfolding utf16be_to_utf16le_copy
  utf16be_to_utf16le =
      transcode_with (utf16be_to_utf16le_len base) 2 granted (utf16be_to_utf16le_copy base true 0)

  unfoldable pub utf16le_to_utf8 : Transcoded
  unfolding utf16le_to_utf8_copy
  utf16le_to_utf8 =
      transcode_with (utf16le_to_utf8_len base) 1 granted (utf16le_to_utf8_copy base true 0)

  unfoldable pub utf16be_to_utf8 : Transcoded
  unfolding utf16be_to_utf8_copy
  utf16be_to_utf8 =
      transcode_with (utf16be_to_utf8_len base) 1 granted (utf16be_to_utf8_copy base true 0)

  -- `_lan_transcode`, by the rows and columns of `_transcode_table`
  unfoldable pub transcode : Lan → Lan → Transcoded
  transcode utf8 utf8 = null
  transcode utf8 utf16le = utf8_to_utf16le
  transcode utf8 utf16be = utf8_to_utf16be
  transcode utf16le utf8 = utf16le_to_utf8
  transcode utf16le utf16le = null
  transcode utf16le utf16be = utf16le_to_utf16be
  transcode utf16be utf8 = utf16be_to_utf8
  transcode utf16be utf16le = utf16be_to_utf16le
  transcode utf16be utf16be = null

module _ (base : Option (List ℕ)) where
  -- `_lan_transcode_require_length`
  unfoldable pub transcode_require_length : Lan → Lan → Option ℕ
  transcode_require_length utf8 utf8 = some 0
  transcode_require_length utf8 utf16le = utf8_to_utf16le_len base
  transcode_require_length utf8 utf16be = utf8_to_utf16be_len base
  transcode_require_length utf16le utf8 = utf16le_to_utf8_len base
  transcode_require_length utf16le utf16le = some 0
  transcode_require_length utf16le utf16be = utf16le_to_utf16be_len base
  transcode_require_length utf16be utf8 = utf16be_to_utf8_len base
  transcode_require_length utf16be utf16le = utf16be_to_utf16le_len base
  transcode_require_length utf16be utf16be = some 0

  -- `_lan_transcode_copy`
  unfoldable pub transcode_copy : Bool → ℕ → Lan → Lan → Copied
  transcode_copy to to_len utf8 utf8 = refused
  transcode_copy to to_len utf8 utf16le = utf8_to_utf16le_copy base to to_len
  transcode_copy to to_len utf8 utf16be = utf8_to_utf16be_copy base to to_len
  transcode_copy to to_len utf16le utf8 = utf16le_to_utf8_copy base to to_len
  transcode_copy to to_len utf16le utf16le = refused
  transcode_copy to to_len utf16le utf16be = utf16le_to_utf16be_copy base to to_len
  transcode_copy to to_len utf16be utf8 = utf16be_to_utf8_copy base to to_len
  transcode_copy to to_len utf16be utf16le = utf16be_to_utf16le_copy base to to_len
  transcode_copy to to_len utf16be utf16be = refused
