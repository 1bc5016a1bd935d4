-- ===== src/S3Gateway/Handlers/Laws.antt =====
-- What is put is what is got.
use Prim.Native.String.{◌++◌}
use mathlib.Core.List.{Memᴰ}
use neco_containers.Base.{
  ℕ, ◌≡◌, refl, sym, ap, ◌∙◌, String, ◌==◌, Option, none, some, ok, Map, lookup, insert,
  lookup-insert, lookup-delete, Result-cases, Option-cases, inl, inr, ◌⊎◌, arith, if◌then◌else◌,
}
use neco_containers.S3Gateway.Handlers.{
  Request, Response, Output, Client, get_header_or_nil, set_header_or_nil, object_key, http_error,
  copy_failed, log_error, set_last_modified, object_header, write_object, after_get, object_get,
  after_call, object_put, object_handler,
}

bad_request : (n : ℕ) → n ≡ 400 → n ≡ 200 → ⊥
bad_request n h i = omega (arith, h, i)

module _ {W E Body Length Size Time : Type 0} (c : Client W E Body Length Size Time) where
  -- What the service says of its objects: one uploaded is there with its content and its type, and
  -- one that is there is given with a stream of its content, and with its type where it has one.
  -- Of a stream io.Copy writes a first part, and all of it where it returns no error.
  pub record Stores (content : Body → String)
      (stored : W → String → Option (String × Option String)) : Type 0 where
    pub uploading :
        (k body : String) (type : Option String) (u : Unit {0}) (w w' : W)
        → c.upload_object k body type w ≡ (ok u, w')
        → stored w' k ≡ some (body, type)
    pub getting :
        (k body : String) (type : Option String) (o : Output Body Length Time) (w w' : W)
        → c.get_object k w ≡ (ok o, w')
        → stored w k ≡ some (body, type)
        → (content o.body ≡ body) × ((v : String) → type ≡ some v → o.content_type ≡ some v)
    pub copying_part : (b : Body) (w : W) → (rest : String) × (content b ≡ (c.copy b w).0.0 ++ rest)
    pub copying : (b : Body) (w : W) → (c.copy b w).0.1 ≡ none → (c.copy b w).0.0 ≡ content b

  lookup-set_header_or_nil :
      (k key : String) (value : Option String) (header : Map String)
      → lookup k (set_header_or_nil key value header)
        ≡ (if key == k then value else lookup k header)
  unfolding set_header_or_nil
  lookup-set_header_or_nil k key none header = lookup-delete key k header
  lookup-set_header_or_nil k key (some v) header = lookup-insert key k v header

  lookup-set_last_modified :
      (t : Option Time) (header : Map String)
      → lookup "Content-Type" (set_last_modified c t header) ≡ lookup "Content-Type" header
  unfolding set_last_modified
  lookup-set_last_modified none header = refl
  lookup-set_last_modified (some t) header =
      lookup-insert "Last-Modified" "Content-Type" (c.time_text (c.to_utc t)) header

  header-log_error :
      (message : String) (failure : Option E) (res : Response)
      → (log_error message failure res).header ≡ res.header
  unfolding log_error
  header-log_error message none res = refl
  header-log_error message (some e) res = refl

  body-log_error :
      (message : String) (failure : Option E) (res : Response)
      → (log_error message failure res).body ≡ res.body
  unfolding log_error
  body-log_error message none res = refl
  body-log_error message (some e) res = refl

  logged-log_error :
      (message : String) (failure : Option E) (res : Response) {k : String}
      → Memᴰ k res.logged
      → Memᴰ k (log_error message failure res).logged
  unfolding log_error
  logged-log_error message none res m = m
  logged-log_error message (some e) res m = Memᴰ.tail m

  log_error_cases :
      (message : String) (failure : Option E) (res : Response)
      → (failure ≡ none) ⊎ Memᴰ message (log_error message failure res).logged
  unfolding log_error
  log_error_cases message none res = inl refl
  log_error_cases message (some e) res = inr (Memᴰ.head refl)

  lookup-object_header :
      (o : Output Body Length Time) (header : Map String) (v : String)
      → o.content_type ≡ some v
      → lookup "Content-Type" (object_header c o header) ≡ some v
  unfolding object_header
  lookup-object_header o header v e =
      let typed = set_header_or_nil "Content-Type" o.content_type header in
      let tagged = set_header_or_nil "Etag" o.etag typed in
      lookup-set_last_modified o.last_modified
        (insert "Content-Length" (c.length_text o.content_length) tagged)
      ∙ lookup-insert "Content-Length" "Content-Type" (c.length_text o.content_length) tagged
      ∙ lookup-set_header_or_nil "Content-Type" "Etag" o.etag typed
      ∙ lookup-set_header_or_nil "Content-Type" "Content-Type" o.content_type header
      ∙ e

  -- The answer holds a first part of `body`, and all of it unless the failure of the copy was
  -- logged; and it has the type, where there is one.
  abbrev pub Gives : String → Option String → Response → Type 0
  Gives body type res =
      ((rest : String) × (body ≡ res.body ++ rest))
      × ((res.body ≡ body) ⊎ Memᴰ copy_failed res.logged)
      × ((type ≡ none) ⊎ (lookup "Content-Type" res.header ≡ type))

  handle_put :
      (req : Request) (res : Response) (w : W)
      → req.verb ≡ "PUT"
      → object_handler c req res w ≡ object_put c req res w
  unfolding object_handler
  handle_put req res w p = rw (object_handler, p) refl

  handle_get :
      (req : Request) (res : Response) (w : W)
      → req.verb ≡ "GET"
      → object_handler c req res w ≡ object_get c req res w
  unfolding object_handler
  handle_get req res w p = rw (object_handler, p) refl

  module _ (content : Body → String) (stored : W → String → Option (String × Option String))
      (law : Stores content stored) where
    write_object-Gives :
        (o : Output Body Length Time) (res : Response) (w : W) (body : String)
        (type : Option String)
        → content o.body ≡ body
        → ((v : String) → type ≡ some v → o.content_type ≡ some v)
        → Gives body type (write_object c o res w).0
    unfolding write_object
    write_object-Gives o res w body type same typed =
        let ((written, failure), w1) = c.copy o.body w in
        let unclosed = (c.close o.body w1).0 in
        let begun = record res { header = object_header c o res.header; body = written } in
        let copied = log_error copy_failed failure begun in
        let closing : String = "failed to close object response body" in
        let kept =
          body-log_error closing unclosed copied ∙ body-log_error copy_failed failure begun in
        let (rest, part) = law.copying_part o.body w in
        (
          (rest, sym same ∙ part ∙ ap (λ x. x ++ rest) (sym kept)),
          elim (log_error_cases copy_failed failure begun) [
            | inl e ↦ inl (kept ∙ law.copying o.body w e ∙ same)
            | inr m ↦ inr (logged-log_error closing unclosed copied m)
          ],
          elim (Option-cases type) [
            | inl e ↦ inl e
            | inr (v, e) ↦ inr (
                ap (λ h. lookup "Content-Type" h)
                  (header-log_error closing unclosed copied
                    ∙ header-log_error copy_failed failure begun)
                ∙ lookup-object_header o res.header v (typed v e)
                ∙ sym e)
          ],
        )

    object_put-stored :
        (req : Request) (res : Response) (w : W)
        → (object_put c req res w).0.status ≡ 200
        → stored (object_put c req res w).1 (object_key req)
          ≡ some (req.body, get_header_or_nil req.header "Content-Type")
    unfolding object_put after_call http_error
    object_put-stored req res w h =
        let k = object_key req in
        let type = get_header_or_nil req.header "Content-Type" in
        let w1 = (c.upload_object k req.body type w).1 in
        elim (Result-cases (c.upload_object k req.body type w).0) [
          | inl (u, e) ↦
              rw (object_put, e) (law.uploading k req.body type u w w1 (ap (λ r. (r, w1)) e))
          | inr (f, e) ↦ absurd (bad_request 400 refl (rw (object_put, e) at h))
        ]

    get-stored :
        (req : Request) (res : Response) (w : W) (k body : String) (type : Option String)
        → k ≡ object_key req
        → stored w k ≡ some (body, type)
        → (object_get c req res w).0.status ≡ 200
        → Gives body type (object_get c req res w).0
    unfolding object_get after_get http_error
    get-stored req res w k body type same there h =
        let w1 = (c.get_object (object_key req) w).1 in
        elim (Result-cases (c.get_object (object_key req) w).0) [
          | inr (f, e) ↦ absurd (bad_request 400 refl (rw (object_get, e) at h))
          | inl (o, e) ↦
              let (i, j) =
                law.getting k body type o w w1
                  (ap (λ x. c.get_object x w) same ∙ ap (λ r. (r, w1)) e) there in
              rw (object_get, e) (write_object-Gives o res w1 body type i j)
        ]

    -- An object that was put with the answer 200 is given back by a later get of the same key that is
    -- answered 200, if nothing was called in between: a first part of its content, which is all of
    -- it unless the log says that the copy to the answer failed, and the Content-Type of the put
    -- where that was not empty. Provided that the service gives back what it took without an error,
    -- and that io.Copy writes a first part of a stream, and all of it where it returns no error.
    pub put-get :
        (put get : Request) (res res' : Response) (w : W)
        → put.verb ≡ "PUT"
        → get.verb ≡ "GET"
        → object_key put ≡ object_key get
        → (object_handler c put res w).0.status ≡ 200
        → (object_handler c get res' (object_handler c put res w).1).0.status ≡ 200
        → Gives put.body
            (get_header_or_nil put.header "Content-Type")
            (object_handler c get res' (object_handler c put res w).1).0
    put-get put get res res' w p g same h i =
        let w1 = (object_put c put res w).1 in
        let a = handle_put put res w p in
        let b = handle_get get res' w1 g in
        rw (a, b)
          (get-stored get res' w1 (object_key put) put.body
            (get_header_or_nil put.header "Content-Type") same
            (object_put-stored put res w (rw a at h)) (rw b at (rw a at i)))
