-- ===== src/Keystore/Files.antt =====
-- internal/keystore: the keystore's directory, as far as the code uses it.
use txmill.Base.{
  ◌≡◌, ◌≢◌, refl, sym, false, not, List, [], ◌∷◌, ◌++◌, Option, none, some, Bytes, Result, ok, err,
  foreign, bytes_eq, bytes_eq_refl, bytes_eq-eq, arith, find, select, Bool-cases, inl, inr,
  if◌then◌else◌, ◌∙◌,
}
use txmill.Keystore.{Entry}

abbrev pub Dir : Type 0
Dir = List Entry

abbrev pub entry_at : Bytes → Dir → Option Entry
entry_at name d = find (λ e. bytes_eq e.name name) d

-- What the system reads: the error is that of a missing file or of a directory.
abbrev contents_of : Option Entry → Result Bytes
contents_of none = err (foreign 2)
contents_of (some e) = if e.is_dir then err (foreign 21) else ok e.content

abbrev pub read_at : Bytes → Dir → Result Bytes
read_at name d = contents_of (entry_at name d)

abbrev pub remove_at : Bytes → Dir → Dir
remove_at name d = select (λ e. not (bytes_eq e.name name)) d

-- A file with new contents, in the place of what was there.
abbrev pub put : Bytes → Bytes → Dir → Dir
put name content d =
    remove_at name d ++ record { name = name; is_dir = false; content = content } ∷ []

abbrev put_entry : Bytes → Option Entry → Dir → Dir
put_entry name none d = d
put_entry name (some e) d = put name e.content d

abbrev pub move : Bytes → Bytes → Dir → Dir
move old new d = put_entry new (entry_at old d) (remove_at old d)

bytes_ne : (a b : Bytes) → a ≢ b → bytes_eq a b ≡ false
bytes_ne a b h = elim (Bool-cases (bytes_eq a b)) [
  | inl e ↦ absurd (h (bytes_eq-eq a b e))
  | inr e ↦ e
]

pub entry_at-remove_self : (name : Bytes) (d : Dir) → entry_at name (remove_at name d) ≡ none
entry_at-remove_self name [] = refl
entry_at-remove_self name (e ∷ d) = ground (arith, entry_at-remove_self name d)

pub entry_at-remove_ne :
    (name other : Bytes) (d : Dir)
    → other ≢ name
    → entry_at other (remove_at name d) ≡ entry_at other d
entry_at-remove_ne name other [] h = refl
entry_at-remove_ne name other (e ∷ d) h = elim (Bool-cases (bytes_eq e.name name)) [
  | inr kept ↦ ground (arith, entry_at-remove_ne name other d h)
  | inl gone ↦
      let is = bytes_eq-eq e.name name gone in
      let differs : bytes_eq e.name other ≡ false =
        bytes_ne e.name other λ same. h (sym same ∙ is) in
      ground (arith, entry_at-remove_ne name other d h, differs)
]

entry_at-append :
    (name : Bytes) (d : Dir) (e : Entry)
    → entry_at name d ≡ none
    → entry_at name (d ++ e ∷ []) ≡ entry_at name (e ∷ [])
entry_at-append name [] e h = refl
entry_at-append name (x ∷ d) e h = ground (arith, entry_at-append name d e)

entry_at-append_ne :
    (name : Bytes) (d : Dir) (e : Entry)
    → bytes_eq e.name name ≡ false
    → entry_at name (d ++ e ∷ []) ≡ entry_at name d
entry_at-append_ne name [] e h = ground (arith, h)
entry_at-append_ne name (x ∷ d) e h = ground (arith, entry_at-append_ne name d e h)

pub entry_at-put_self :
    (name content : Bytes) (d : Dir)
    → entry_at name (put name content d)
      ≡ some (record { name = name; is_dir = false; content = content })
entry_at-put_self name content d =
    let gone = entry_at-remove_self name d in
    let e : Entry = record { name = name; is_dir = false; content = content } in
    ground (arith, entry_at-append name (remove_at name d) e gone, bytes_eq_refl name)

pub entry_at-put_ne :
    (name other content : Bytes) (d : Dir)
    → other ≢ name
    → entry_at other (put name content d) ≡ entry_at other d
entry_at-put_ne name other content d h =
    let e : Entry = record { name = name; is_dir = false; content = content } in
    entry_at-append_ne other (remove_at name d) e (bytes_ne name other λ same. h (sym same))
    ∙ entry_at-remove_ne name other d h

-- A file that is written and then moved.
pub entry_at-move-put :
    (old new content : Bytes) (d : Dir)
    → entry_at new (move old new (put old content d))
      ≡ some (record { name = new; is_dir = false; content = content })
entry_at-move-put old new content d = ground (
  arith,
  entry_at-put_self old content d,
  entry_at-put_self new content (remove_at old (put old content d)),
)

pub entry_at-move-put_ne :
    (old new other content : Bytes) (d : Dir)
    → other ≢ old
    → other ≢ new
    → entry_at other (move old new (put old content d)) ≡ entry_at other d
entry_at-move-put_ne old new other content d h k = ground (
  arith,
  entry_at-put_self old content d,
  entry_at-put_ne new other content (remove_at old (put old content d)) k,
  entry_at-remove_ne old other (put old content d) h,
  entry_at-put_ne old other content d h,
)
