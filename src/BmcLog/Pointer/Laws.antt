-- ===== src/BmcLog/Pointer/Laws.antt =====
-- The pointer files.
use Prim.Native.String.{len}
use text.Mathlib.TextPositions.{len-append}
use neco_containers.Base.{
  ◌≡◌, refl, ap, ◌∙◌, sym, inl, inr, String, ◌==◌, eq_iff, eq_refl, false, Bool-cases, Option, none,
  some, Option-cases, Result-cases, Result, ok, err, Map, lookup, insert, delete, arith,
  lookup-insert, ◌>>◌,
}
use neco_containers.BmcLog.Pointer.{
  LastPointer, zero_pointer, Os, Call, stat, create, write_string, sync, rename, open_file,
  read_all, tmp_path, move_content, perform, perform_after, lift, found,
  check_and_create_pointer_file, update_last_pointer, read_last_pointer,
}

tmp_path_other : (name : String) → (tmp_path name == name) ≡ false
tmp_path_other name = elim (Bool-cases (tmp_path name == name)) [
  | inl e ↦
      let longer = len-append "_" name in
      let same = ap len ((eq_iff (tmp_path name) name).0 e) in
      let one : len "_" ≡ 1 = refl in absurd (omega arith)
  | inr n ↦ n
]

lookup-move_content :
    (p q text : String) (files : Map String)
    → lookup p (move_content q p (lookup q (insert q text files)) (insert q text files)) ≡ some text
unfolding move_content
lookup-move_content p q text files =
    rw (lookup-insert q q text files, eq_refl q)
      (rw (lookup-insert p p text (delete q (insert q text files)), eq_refl p) refl)

abbrev text_of {ℓ} : {E A : Type ℓ} → Result E A → Option A
text_of (ok a) = some a
text_of (err e) = none

module _ {E : Type 0} (os : Os E) where
  -- What an update leaves in the file of that name: the whole new text, or what was there before.
  abbrev pub Updates : LastPointer → String → Map String → Result E (Unit {0}) × Map String → Type 0
  Updates lptr name before (ok u, after) = lookup name after ≡ text_of (os.marshal lptr)
  Updates lptr name before (err e, after) = lookup name after ≡ lookup name before

  -- An update is atomic: when it succeeds, the pointer file holds the new text, and when any of its
  -- calls fails, the pointer file is what it was.
  pub update_last_pointer_atomic :
      (lptr : LastPointer) (name : String) (files : Map String)
      → Updates lptr name files (update_last_pointer os lptr name files)
  unfolding update_last_pointer perform perform_after lift move_content
  update_last_pointer_atomic lptr name files = elim (Result-cases (os.marshal lptr)) [
    | inr (e, p) ↦ rw p refl
    | inl (text, p) ↦
        let other = tmp_path_other name in
        elim (Option-cases (os.fault (create (tmp_path name)))) [
          | inr (e, q) ↦ rw (p, q) refl
          | inl q ↦ elim (Option-cases (os.fault (write_string (tmp_path name)))) [
            | inr (e, r) ↦
                rw (p, q, r) (rw (lookup-insert (tmp_path name) name "" files, other) refl)
            | inl r ↦ elim (Option-cases (os.fault (sync (tmp_path name)))) [
              | inr (e, s) ↦
                  rw (p, q, r, s)
                    (rw
                      (
                        lookup-insert (tmp_path name) name text (insert (tmp_path name) "" files),
                        lookup-insert (tmp_path name) name "" files,
                        other,
                      )
                      refl)
              | inl s ↦ elim (Option-cases (os.fault (rename (tmp_path name) name))) [
                | inr (e, t) ↦
                    rw (p, q, r, s, t)
                      (rw
                        (
                          lookup-insert (tmp_path name) name text (insert (tmp_path name) "" files),
                          lookup-insert (tmp_path name) name "" files,
                          other,
                        )
                        refl)
                | inl t ↦
                    rw (p, q, r, s, t)
                      (lookup-move_content name (tmp_path name) text
                          (insert (tmp_path name) "" files)
                        ∙ ap text_of (sym p))
              ]
            ]
          ]
        ]
  ]

module _ {E : Type 0} (os : Os E) where
  module _ (faultless : (c : Call) → os.fault c ≡ none) (name : String) (lptr : LastPointer) where
    -- A pointer file that holds a pointer is read as it, and nothing changes.
    pub read_pointer_stored :
        (files : Map String) (text : String)
        → lookup name files ≡ some text
        → os.unmarshal text ≡ ok lptr
        → (check_and_create_pointer_file os name >> read_last_pointer os name) files
          ≡ (ok lptr, files)
    unfolding check_and_create_pointer_file read_last_pointer perform perform_after lift found
    read_pointer_stored files text l u =
        rw (faultless (stat name), l)
          (rw (faultless (open_file name), l) (rw (faultless (read_all name), u) refl))

    -- Without faults, an update leaves the text of the pointer.
    pub lookup-update_last_pointer :
        (files : Map String) (text : String)
        → os.marshal lptr ≡ ok text
        → lookup name (update_last_pointer os lptr name files).1 ≡ some text
    unfolding update_last_pointer perform perform_after lift
    lookup-update_last_pointer files text p =
        rw
          (
            p,
            faultless (create (tmp_path name)),
            faultless (write_string (tmp_path name)),
            faultless (sync (tmp_path name)),
            faultless (rename (tmp_path name) name),
          )
          (lookup-move_content name (tmp_path name) text (insert (tmp_path name) "" files))

    -- A machine without a pointer file starts from the zero pointer.
    read_pointer_new :
        (files : Map String) (text : String)
        → lookup name files ≡ none
        → os.marshal zero_pointer ≡ ok text
        → os.unmarshal text ≡ ok zero_pointer
        → ((check_and_create_pointer_file os name >> read_last_pointer os name) files).0
          ≡ ok zero_pointer
    unfolding check_and_create_pointer_file read_last_pointer perform perform_after lift found
    read_pointer_new files text l p u =
        rw (faultless (stat name), l)
          (rw (p, faultless (create name), faultless (write_string name))
            (rw
              (
                faultless (open_file name),
                lookup-insert name name text (insert name "" files),
                eq_refl name,
              )
              (rw (faultless (read_all name), u) refl)))
