-- ===== src/BmcLog/Pointer.antt =====
-- bmc-log-collector/log-pointer.go, lines 12-96: one pointer file per machine. A file of the pointer
-- directory is named by its base name, and its content is the text written to it. Every call of the
-- operating system may fail by a fault the model takes as a parameter; a call that fails does nothing.
pub mod Laws
pub mod Frame
use Prim.Native.String.{◌++◌}
use neco_containers.Base.{
  String, Option, none, some, Result, ok, err, Exec, pure, raise, proceed, ◌>>=◌, ◌>>◌, Map, lookup,
  insert, delete, is_some, ℤ, pos, if◌then◌else◌, ◌||◌,
}

pub record LastPointer : Type 0 where
  pub last_read_id : ℤ
  pub last_error : String
  pub last_http_status_code : ℤ
  pub first_create_time : ℤ

-- The zero value of the struct.
abbrev pub zero_pointer : LastPointer
zero_pointer = record {
  last_read_id = pos 0;
  last_error = "";
  last_http_status_code = pos 0;
  first_create_time = pos 0;
}

pub data Call : Type 0 where
  stat : String → Call
  create : String → Call
  write_string : String → Call
  sync : String → Call
  rename : String → String → Call
  open_file : String → Call
  read_all : String → Call
  remove : String → Call
  read_dir : Call

-- The faults of the calls, the error of a missing file, and the JSON encoding of the struct.
pub record Os (E : Type 0) : Type 0 where
  pub fault : Call → Option E
  pub not_exist : String → E
  pub marshal : LastPointer → Result E String
  pub unmarshal : String → Result E LastPointer

-- dirName + "/_" + fileName
abbrev pub tmp_path : String → String
tmp_path name = "_" ++ name

-- `p` now has the content of `q`, and `q` is gone; a missing `q` changes nothing.
move_content : String → String → Option String → Map String → Map String
move_content q p none files = files
move_content q p (some text) files = insert p text (delete q files)

module _ {E : Type 0} (os : Os E) where
  perform_after : Option E → (Map String → Map String) → Exec (Map String) E (Unit {0})
  perform_after none f files = (ok tt, f files)
  perform_after (some e) f files = (err e, files)

  unfoldable pub perform : Call → (Map String → Map String) → Exec (Map String) E (Unit {0})
  unfolding perform_after
  perform c f = perform_after (os.fault c) f

  lift : {A : Type 0} → Result E A → Exec (Map String) E A
  lift (ok a) files = (ok a, files)
  lift (err e) files = (err e, files)

  found : String → Option String → Result E String
  found name none = err (os.not_exist name)
  found name (some text) = ok text

  -- A stat that fails otherwise is not the error IsNotExist.
  unfoldable pub check_and_create_pointer_file : String → Exec (Map String) E (Unit {0})
  unfolding lift
  check_and_create_pointer_file name files =
      if is_some (os.fault (stat name)) || is_some (lookup name files)
      then (ok tt, files)
      else (lift (os.marshal zero_pointer) >>= λ text.
            perform (create name) (insert name "")
            >> perform (write_string name) (insert name text))
          files

  unfoldable pub update_last_pointer : LastPointer → String → Exec (Map String) E (Unit {0})
  unfolding lift move_content
  update_last_pointer lptr name = lift (os.marshal lptr) >>= λ text.
      perform (create (tmp_path name)) (insert (tmp_path name) "")
      >> perform (write_string (tmp_path name)) (insert (tmp_path name) text)
      >> perform (sync (tmp_path name)) (λ files. files)
      >> perform (rename (tmp_path name) name)
          (λ files. move_content (tmp_path name) name (lookup (tmp_path name) files) files)

  unfoldable pub read_last_pointer : String → Exec (Map String) E LastPointer
  unfolding lift found
  read_last_pointer name files =
      (perform (open_file name) (λ fs. fs) >> lift (found name (lookup name files)) >>= λ text.
      perform (read_all name) (λ fs. fs) >> lift (os.unmarshal text))
        files
