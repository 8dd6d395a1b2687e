-- ===== src/RestConf/Answers.antt =====
-- The answers of `ServeHTTP`, for any map of handlers, encoders and time.
use go_restconf.GoMap.{get, put, get-put}
use go_restconf.GoText.{is_prefix}
use go_restconf.RestConf.{
  Handler, host_meta, root, data_resource, operations, yang_lib_ver, Mux, Request, Response,
  empty_response, Document, http_error, succeed, run_host_meta, answer, run_document, run_handler,
  registered, first_prefix, route, serve_http, clean_path, application_xrd_xml, host_meta_body,
  application_data_xml, application_data_json, rest_conf_root, rest_conf_json,
  yang_lib_ver_document,
}
use go_restconf.Common.{
  bytes_eq, bytes_eq_iff, Bytes, codes, All, Bool-cases, Option-cases, ℕ, ◌≡◌, refl, sym, ap, ◌∙◌,
  ◌⊎◌, inl, inr, false, Option, none, some, List, [], ◌∷◌, ◌++◌,
}

abbrev pub field : Bytes → Response → Option Bytes
field k rsp = get k rsp.fields

-- An answer has the fields that `Reg` sets.
abbrev Marked : Bytes → Response → Type 0
Marked date rsp =
    (field (codes "Server") rsp ≡ some (codes "RESTCONF")) × (field (codes "Date") rsp ≡ some date)

http_error-Marked :
    (date : Bytes) (rsp : Response) (text : Bytes) (code : ℕ)
    → Marked date rsp
    → Marked date (http_error rsp text code)
unfolding http_error
http_error-Marked date rsp text code (s, d) =
    let plain : List (Bytes × Bytes) =
      put (codes "Content-Type") (codes "text/plain; charset=utf-8") rsp.fields in
    (
      get-put (codes "Server") (codes "X-Content-Type-Options") (codes "nosniff") plain
          ∙ get-put (codes "Server") (codes "Content-Type") (codes "text/plain; charset=utf-8")
              rsp.fields
          ∙ s,
      get-put (codes "Date") (codes "X-Content-Type-Options") (codes "nosniff") plain
          ∙ get-put (codes "Date") (codes "Content-Type") (codes "text/plain; charset=utf-8")
              rsp.fields
          ∙ d,
    )

succeed-Marked :
    (date : Bytes) (rsp : Response) (format body : Bytes)
    → Marked date rsp
    → Marked date (succeed rsp format body)
unfolding succeed
succeed-Marked date rsp format body (s, d) = (
  get-put (codes "Server") (codes "Content-Type") format rsp.fields ∙ s,
  get-put (codes "Date") (codes "Content-Type") format rsp.fields ∙ d,
)

-- Where the status is 200, the content type is the one that the request accepts, or there is none.
abbrev Settled : Request → Response → Type 0
Settled req rsp =
    ((rsp.status ≡ 200)
      × ((field (codes "Content-Type") rsp ≡ none)
          ⊎ (field (codes "Content-Type") rsp ≡ some req.accept)))
    ⊎ (rsp.status ≡ 400)
    ⊎ (rsp.status ≡ 417)

-- What a handler answers.
pub record IsServed (date : Bytes) (req : Request) (rsp : Response) : Type 0 where
  pub server : field (codes "Server") rsp ≡ some (codes "RESTCONF")
  pub time : field (codes "Date") rsp ≡ some date
  pub settled : Settled req rsp

http_error-IsServed :
    (date : Bytes) (req : Request) (rsp : Response) (text : Bytes) (code : ℕ)
    → Marked date rsp
    → (code ≡ 400) ⊎ (code ≡ 417)
    → IsServed date req (http_error rsp text code)
unfolding http_error
http_error-IsServed date req rsp text code m h =
    let (s, d) = http_error-Marked date rsp text code m in
    record { server = s; time = d; settled = inr h }

succeed-IsServed :
    (date : Bytes) (req : Request) (rsp : Response) (format body : Bytes)
    → Marked date rsp
    → format ≡ req.accept
    → IsServed date req (succeed rsp format body)
unfolding succeed
succeed-IsServed date req rsp format body m q =
    let (s, d) = succeed-Marked date rsp format body m in
    record {
      server = s;
      time = d;
      settled = inl (
        refl,
        inr (get-put (codes "Content-Type") (codes "Content-Type") format rsp.fields ∙ ap some q),
      );
    }

run_host_meta-IsServed :
    (date : Bytes) (req : Request) (rsp : Response)
    → Marked date rsp
    → IsServed date req (run_host_meta rsp req)
unfolding run_host_meta
run_host_meta-IsServed date req rsp m = elim (Bool-cases (bytes_eq req.method (codes "GET"))) [
  | inr other ↦
      rw (other, run_host_meta)
        (http_error-IsServed date req rsp (codes "method is not GET!") 400 m (inl refl))
  | inl gets ↦ elim (Bool-cases (bytes_eq req.accept application_xrd_xml)) [
    | inr other ↦
        rw (gets, other, run_host_meta)
          (http_error-IsServed date req rsp (codes "Accept is incorrect!") 400 m (inl refl))
    | inl accepts ↦
        rw (gets, accepts, run_host_meta)
          (succeed-IsServed date req rsp application_xrd_xml host_meta_body m
            (sym ((bytes_eq_iff req.accept application_xrd_xml).0 accepts)))
  ]
]

abbrev pub NotPrefix : Bytes → Bytes × Handler → Type 0
NotPrefix path a = is_prefix a.0 path ≡ false

first_prefix-none :
    (path : Bytes) (mux : Mux) → first_prefix path mux ≡ none → All (NotPrefix path) mux
unfolding first_prefix
first_prefix-none path [] h = tt
first_prefix-none path ((url, g) ∷ mux) h = elim (Bool-cases (is_prefix url path)) [
  | inl known ↦ absurd (let q : some g ≡ none = rw known at h in cc)
  | inr other ↦ (other, first_prefix-none path mux (rw other at h))
]

route-none : (path : Bytes) (mux : Mux) → route path mux ≡ none → All (NotPrefix path) mux
unfolding route
route-none path mux h = elim (Option-cases (get path mux)) [
  | inl e ↦ first_prefix-none path mux (rw (e, route) at h)
  | inr (g, e) ↦ absurd (let q : some g ≡ none = rw (e, route) at h in cc)
]

module _ (marshal : Bytes → Document → Bytes ⊎ Bytes) (date : Bytes) where
  answer-IsServed :
      (req : Request) (rsp : Response) (result : Bytes ⊎ Bytes)
      → Marked date rsp
      → IsServed date req (answer marshal date rsp req.accept result)
  unfolding answer
  answer-IsServed req rsp (inl why) m =
      http_error-IsServed date req rsp (codes "Marshal failed!" ++ why) 417 m (inr refl)
  answer-IsServed req rsp (inr body) m = succeed-IsServed date req rsp req.accept body m refl

  run_document-IsServed :
      (xml json : Document) (req : Request) (rsp : Response)
      → Marked date rsp
      → IsServed date req (run_document marshal date xml json rsp req)
  unfolding run_document
  run_document-IsServed xml json req rsp m =
      elim (Bool-cases (bytes_eq req.accept application_data_xml)) [
        | inl is_xml ↦
            rw (is_xml, run_document) (answer-IsServed req rsp (marshal req.accept xml) m)
        | inr not_xml ↦ elim (Bool-cases (bytes_eq req.accept application_data_json)) [
          | inl is_json ↦
              rw (not_xml, is_json, run_document)
                (answer-IsServed req rsp (marshal req.accept json) m)
          | inr not_json ↦
              rw (not_xml, not_json, run_document)
                (http_error-IsServed date req rsp (codes "Accept is incorrect!") 400 m (inl refl))
        ]
      ]

  started : Response
  started = record empty_response {
    fields = put (codes "Date") date (put (codes "Server") (codes "RESTCONF") []);
  }

  started-Marked : Marked date started
  unfolding started put get
  started-Marked = (refl, refl)

  silent-IsServed : (req : Request) → IsServed date req started
  unfolding started put get
  silent-IsServed req = record { server = refl; time = refl; settled = inl (refl, inl refl) }

  registered-IsServed :
      (h : Handler) (req : Request)
      → IsServed date req (registered marshal date h empty_response req)
  unfolding registered run_handler started
  registered-IsServed host_meta req = run_host_meta-IsServed date req started started-Marked
  registered-IsServed root req =
      run_document-IsServed rest_conf_root rest_conf_json req started started-Marked
  registered-IsServed data_resource req = silent-IsServed req
  registered-IsServed operations req = silent-IsServed req
  registered-IsServed yang_lib_ver req =
      run_document-IsServed yang_lib_ver_document yang_lib_ver_document req started started-Marked

  -- `ServeHTTP`, whatever the order of the map, answers with the status 404 only where no url that is
  -- registered is a prefix of the clean path. All other answers have the server's name and the date,
  -- and the status 400, 417 or 200; with 200 the content type is the accepted one, or none is set.
  pub serve_http_lem :
      (mux : Mux) (req : Request)
      → ((serve_http marshal date mux req).status ≡ 404)
          × All (NotPrefix (clean_path req.url_path)) mux
        ⊎ IsServed date req (serve_http marshal date mux req)
  unfolding serve_http http_error
  serve_http_lem mux req = elim (Option-cases (route (clean_path req.url_path) mux)) [
    | inr (h, e) ↦ inr (rw (e, serve_http) (registered-IsServed h req))
    | inl e ↦ inl (rw (e, serve_http) (refl, route-none (clean_path req.url_path) mux e))
  ]
