-- ===== src/S3Gateway/Handlers.antt =====
-- s3gw/handler.go: the handlers of objects over the calls of the S3 client. The text of a
-- Content-Length, which fmt.Sprint makes of a pointer, is a parameter, and so are the encodings,
-- and how much of a body io.Copy and Write bring to the client of the gateway before they fail.
pub mod Laws
use Prim.Native.String.{slice, len, ◌++◌}
use neco_containers.Base.{
  ℕ, String, ◌==◌, Bool, Option, none, some, Result, ok, err, List, [], ◌∷◌, map, Map, get_text,
  insert, delete, if◌then◌else◌,
}

-- A request; a header is under its canonical name.
pub record Request : Type 0 where
  pub verb : String
  pub path : String
  pub header : Map String
  pub body : String

-- What was written to the http.ResponseWriter, and the messages of the log, the newest first.
pub record Response : Type 0 where
  pub status : ℕ
  pub header : Map String
  pub body : String
  pub logged : List String

-- The fields of a GetObjectOutput that are read. `Length` is the type of its ContentLength, and
-- `Body` that of the stream.
pub record Output (Body Length Time : Type 0) : Type 0 where
  pub content_type : Option String
  pub etag : Option String
  pub content_length : Length
  pub last_modified : Option Time
  pub body : Body

pub record ListedObject (Size Time : Type 0) : Type 0 where
  pub key : String
  pub size : Size
  pub last_modified : Time
  pub etag : String

-- The calls of the client, on the bucket of the gateway, and those on the streams: io.Copy to the
-- answer, Write and Close, the first two with what they wrote and their error.
pub record Client (W E Body Length Size Time : Type 0) : Type 0 where
  pub list_objects : W → Result E (List (ListedObject Size Time)) × W
  pub get_object : String → W → Result E (Output Body Length Time) × W
  pub copy : Body → W → (String × Option E) × W
  pub write : String → W → (String × Option E) × W
  pub close : Body → W → Option E × W
  pub upload_object : String → String → Option String → W → Result E (Unit {0}) × W
  pub delete_object : String → W → Result E (Unit {0}) × W
  pub error_text : E → String
  pub length_text : Length → String
  pub time_text : Time → String
  pub to_utc : Time → Time
  pub marshal : List (ListedObject Size Time) → Result E String
  pub size_text : String → String

-- http.Header.Get gives the empty text for a missing key.
unfoldable pub get_header_or_nil : Map String → String → Option String
get_header_or_nil header key =
    let value = get_text key header in if value == "" then none else some value

unfoldable pub set_header_or_nil : String → Option String → Map String → Map String
set_header_or_nil key none header = delete key header
set_header_or_nil key (some value) header = insert key value header

-- req.URL.Path[bucketPathPrefix:]
unfoldable pub object_key : Request → String
object_key req = slice req.path 8 (len req.path)

-- http.Error
unfoldable pub http_error : String → ℕ → Response → Response
http_error text code res = record res {
  status = code;
  header =
      insert "Content-Type" "text/plain; charset=utf-8"
        (insert "X-Content-Type-Options" "nosniff" (delete "Content-Length" res.header));
  body = text ++ "\n";
}

unfoldable pub write_header : ℕ → Response → Response
write_header code res = record res { status = code }

abbrev pub copy_failed : String
copy_failed = "failed to write object response"

-- log.Error with the message, where there is an error.
unfoldable pub log_error : {E : Type 0} → String → Option E → Response → Response
log_error message none res = res
log_error message (some e) res = record res { logged = message ∷ res.logged }

module _ {W E Body Length Size Time : Type 0} (c : Client W E Body Length Size Time) where
  set_last_modified : Option Time → Map String → Map String
  set_last_modified none header = header
  set_last_modified (some t) header = insert "Last-Modified" (c.time_text (c.to_utc t)) header

  unfoldable pub object_header : Output Body Length Time → Map String → Map String
  unfolding set_header_or_nil set_last_modified
  object_header o header = set_last_modified o.last_modified (
      insert "Content-Length" (c.length_text o.content_length)
        (set_header_or_nil "Etag" o.etag (set_header_or_nil "Content-Type" o.content_type header)))

  -- The object is copied to the answer, the status of which is sent by then: an error of the copy
  -- is only logged, and so is one of the deferred Close.
  unfoldable pub write_object : Output Body Length Time → Response → W → Response × W
  unfolding object_header log_error
  write_object o res w =
      let ((written, failure), w1) = c.copy o.body w in
      let (unclosed, w2) = c.close o.body w1 in
      let begun = record res { header = object_header o res.header; body = written } in
      (
        log_error "failed to close object response body" unclosed
            (log_error copy_failed failure begun),
        w2,
      )

  after_get : Result E (Output Body Length Time) × W → Response → Response × W
  unfolding write_object http_error
  after_get (err e, w) res = (http_error (c.error_text e) 400 res, w)
  after_get (ok o, w) res = write_object o res w

  unfoldable pub object_get : Request → Response → W → Response × W
  unfolding after_get object_key
  object_get req res w = after_get (c.get_object (object_key req) w) res

  -- The answer to a call that gives nothing back.
  after_call : Result E (Unit {0}) × W → Response → Response × W
  unfolding http_error write_header
  after_call (err e, w) res = (http_error (c.error_text e) 400 res, w)
  after_call (ok u, w) res = (write_header 200 res, w)

  unfoldable pub object_put : Request → Response → W → Response × W
  unfolding after_call object_key get_header_or_nil
  object_put req res w =
      after_call
        (c.upload_object (object_key req) req.body (get_header_or_nil req.header "Content-Type") w)
        res

  unfoldable pub object_delete : Request → Response → W → Response × W
  unfolding after_call object_key
  object_delete req res w = after_call (c.delete_object (object_key req) w) res

  unfoldable pub object_handler : Request → Response → W → Response × W
  unfolding object_get object_put object_delete write_header
  object_handler req res w =
      if req.verb == "GET"
      then object_get req res w
      else if req.verb == "PUT"
      then object_put req res w
      else if req.verb == "DELETE"
      then object_delete req res w
      else (write_header 405 res, w)

  listed : ListedObject Size Time → ListedObject Size Time
  listed o = record o { last_modified = c.to_utc o.last_modified }

  write_list : String → (String × Option E) × W → Response → Response × W
  unfolding log_error
  write_list text ((written, failure), w) res = (
    log_error "failed to write list response" failure (record res {
      header = insert "Content-Length" (c.size_text text) res.header;
      body = written;
    }),
    w,
  )

  after_marshal : Result E String → W → Response → Response × W
  unfolding http_error write_list
  after_marshal (err e) w res = (http_error (c.error_text e) 500 res, w)
  after_marshal (ok text) w res = write_list text (c.write text w) res

  after_list : Result E (List (ListedObject Size Time)) × W → Response → Response × W
  unfolding http_error listed after_marshal
  after_list (err e, w) res = (http_error (c.error_text e) 400 res, w)
  after_list (ok os, w) res = after_marshal (c.marshal (map listed os)) w res

  unfoldable pub list_handler : Request → Response → W → Response × W
  unfolding after_list write_header
  list_handler req res w =
      let answered = after_list (c.list_objects w) res in
      if req.verb == "GET" then answered else (write_header 405 res, w)
