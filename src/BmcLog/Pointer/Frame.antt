-- ===== src/BmcLog/Pointer/Frame.antt =====
-- What the operations on one pointer file leave alone.
use neco_containers.Base.{
  ◌≡◌, refl, ◌∙◌, String, ◌==◌, Option, none, some, Result, ok, err, Map, lookup, insert, delete,
  lookup-insert, lookup-delete, ◌||◌, false, Exec, proceed, ◌>>=◌, ◌>>◌, is_some, if-lift,
}
use neco_containers.BmcLog.Pointer.{
  LastPointer, zero_pointer, Os, Call, stat, create, write_string, sync, rename, open_file,
  read_all, tmp_path, move_content, perform, perform_after, lift, found,
  check_and_create_pointer_file, update_last_pointer, read_last_pointer,
}

module _ {E : Type 0} (os : Os E) (q : String) where
  -- The action leaves the content of `q` as it is.
  abbrev Frames : {A : Type 0} → Exec (Map String) E A → Type 0
  Frames m = (files : Map String) → lookup q (m files).1 ≡ lookup q files

  proceed-Frames :
      {A B : Type 0} (x : Result E A × Map String) (k : A → Exec (Map String) E B)
      → ((a : A) → Frames (k a))
      → lookup q (proceed x k).1 ≡ lookup q x.1
  proceed-Frames (ok a, files) k h = h a files
  proceed-Frames (err e, files) k h = refl

  bind-Frames :
      {A B : Type 0} (m : Exec (Map String) E A) (k : A → Exec (Map String) E B)
      → Frames m
      → ((a : A) → Frames (k a))
      → Frames (m >>= k)
  bind-Frames m k h g files = proceed-Frames (m files) k g ∙ h files

  then-Frames :
      {A B : Type 0} (m : Exec (Map String) E A) (k : Exec (Map String) E B)
      → Frames m
      → Frames k
      → Frames (m >> k)
  then-Frames m k h g = bind-Frames m (λ _. k) h (λ _. g)

  abbrev Step : Type 0
  Step = Exec (Map String) E (Unit {0})

  perform_after-Frames :
      (o : Option E) (f : Map String → Map String)
      → ((files : Map String) → lookup q (f files) ≡ lookup q files)
      → Frames (perform_after os o f)
  unfolding perform_after
  perform_after-Frames none f h files = h files
  perform_after-Frames (some e) f h files = refl

  perform-Frames :
      (c : Call) (f : Map String → Map String)
      → ((files : Map String) → lookup q (f files) ≡ lookup q files)
      → Frames (perform os c f)
  unfolding perform
  perform-Frames c f h = perform_after-Frames (os.fault c) f h

  lift-Frames : {A : Type 0} (r : Result E A) → Frames (lift os r)
  unfolding lift
  lift-Frames (ok a) files = refl
  lift-Frames (err e) files = refl

  insert-Frames :
      (k v : String) (files : Map String)
      → (k == q) ≡ false
      → lookup q (insert k v files) ≡ lookup q files
  insert-Frames k v files n = rw (lookup-insert k q v files, n) refl

  move_content-Frames :
      (s p : String) (o : Option String) (files : Map String)
      → (s == q) ≡ false
      → (p == q) ≡ false
      → lookup q (move_content s p o files) ≡ lookup q files
  unfolding move_content
  move_content-Frames s p none files m n = refl
  move_content-Frames s p (some text) files m n =
      insert-Frames p text (delete s files) n ∙ rw (lookup-delete s q files, m) refl

  module _ (name : String) (n : (name == q) ≡ false) (t : (tmp_path name == q) ≡ false) where
    pub update_last_pointer-Frames :
        (lptr : LastPointer) → Frames (update_last_pointer os lptr name)
    unfolding update_last_pointer
    update_last_pointer-Frames lptr =
        let tmp = tmp_path name in
        let created : Step = perform os (create tmp) (insert tmp "") in
        let synced : Step = perform os (sync tmp) (λ files. files) in
        let renamed : Step =
          perform os (rename tmp name) (λ files. move_content tmp name (lookup tmp files) files) in
        let written : String → Step = λ text. perform os (write_string tmp) (insert tmp text) in
        bind-Frames (lift os (os.marshal lptr))
          (λ text. created >> written text >> synced >> renamed) (lift-Frames (os.marshal lptr))
          (λ text.
            then-Frames (created >> written text >> synced) renamed
              (then-Frames (created >> written text) synced
                (then-Frames created (written text)
                  (perform-Frames (create tmp) (insert tmp "") (λ fs. insert-Frames tmp "" fs t))
                  (perform-Frames (write_string tmp) (insert tmp text)
                    (λ fs. insert-Frames tmp text fs t)))
                (perform-Frames (sync tmp) (λ files. files) (λ fs. refl)))
              (perform-Frames (rename tmp name)
                (λ files. move_content tmp name (lookup tmp files) files)
                (λ fs. move_content-Frames tmp name (lookup tmp fs) fs t n)))

    check_and_create_pointer_file-Frames : Frames (check_and_create_pointer_file os name)
    unfolding check_and_create_pointer_file
    check_and_create_pointer_file-Frames files =
        if-lift (λ (x : Result E (Unit {0}) × Map String). lookup q x.1 ≡ lookup q files)
          (is_some (os.fault (stat name)) || is_some (lookup name files)) (ok tt, files)
          ((lift os (os.marshal zero_pointer) >>= λ text.
              perform os (create name) (insert name "")
              >> perform os (write_string name) (insert name text))
            files)
          (λ h. refl)
          (λ h.
            bind-Frames (lift os (os.marshal zero_pointer))
              (λ text.
                perform os (create name) (insert name "")
                >> perform os (write_string name) (insert name text))
              (lift-Frames (os.marshal zero_pointer))
              (λ text.
                then-Frames (perform os (create name) (insert name ""))
                  (perform os (write_string name) (insert name text))
                  (perform-Frames (create name) (insert name "") (λ fs. insert-Frames name "" fs n))
                  (perform-Frames (write_string name) (insert name text)
                    (λ fs. insert-Frames name text fs n)))
              files)

    read_last_pointer-Frames : Frames (read_last_pointer os name)
    unfolding read_last_pointer
    read_last_pointer-Frames files =
        bind-Frames
          (perform os (open_file name) (λ fs. fs) >> lift os (found os name (lookup name files)))
          (λ text. perform os (read_all name) (λ fs. fs) >> lift os (os.unmarshal text))
          (then-Frames (perform os (open_file name) (λ fs. fs))
            (lift os (found os name (lookup name files)))
            (perform-Frames (open_file name) (λ fs. fs) (λ fs. refl))
            (lift-Frames (found os name (lookup name files))))
          (λ text.
            then-Frames (perform os (read_all name) (λ fs. fs)) (lift os (os.unmarshal text))
              (perform-Frames (read_all name) (λ fs. fs) (λ fs. refl))
              (lift-Frames (os.unmarshal text)))
          files

    pub read_pointer-Frames :
        Frames (check_and_create_pointer_file os name >> read_last_pointer os name)
    read_pointer-Frames =
        then-Frames (check_and_create_pointer_file os name) (read_last_pointer os name)
          check_and_create_pointer_file-Frames read_last_pointer-Frames
