-- ===== src/RestConf.antt =====
-- The server of main.go: the registration of handlers, `cleanPath`, `ServeHTTP` and the handlers, with
-- `path.Clean` of Go. The encoders of Go are a parameter, and so is the time. The map
-- of handlers is an association list in the order that it is ranged over, which is any order.
pub mod Paths
pub mod Answers
use go_restconf.GoMap.{get, put}
use go_restconf.GoText.{split, join, is_prefix}
use go_restconf.Common.{
  bytes_eq, bytes_eq_iff, bytes_eq_refl, Bytes, codes, length, take, drop, replicate, get_elem?,
  length-append, take-length_append, drop-length_append, take-append-drop, length-take, length-drop,
  length-replicate, is_seen, All, Any, All-append, ltb, leb, ◌==◌, if◌then◌else◌, is_some, ltb→lt,
  lt→ltb, ltb→le, le→ltb, ==_iff, Bool-cases, Option-cases, ℤ, pos, negsuc, pos_part, neg_part,
  ◌≤ℤ◌, ◌<ℤ◌, ltb_ℤ, eqb_ℤ, suc_ℤ, eqb_ℤ→eq, eqb_ℤ_refl, suc_ℤ_parts, Result, ok, err, panic, ◌>>=◌,
  passed_on, ℕ, zero, suc, ◌+◌, ◌-◌, ◌*◌, ◌/◌, ◌%◌, ◌^◌, ◌≤◌, ◌<◌, ◌≡◌, refl, sym, ap, ◌∙◌, ◌≢◌,
  ◌↔◌, ◌⊎◌, inl, inr, Bool, true, false, not, ◌&&◌, ◌||◌, Option, none, some, List, [], ◌∷◌, ◌++◌,
  map, append_assoc, append-nil, arith,
}

-- What `path.Clean` does with an element of a rooted path; the elements that are kept stand last
-- first.
unfoldable pub clean_part : List Bytes → Bytes → List Bytes
clean_part kept part =
    if bytes_eq part [] || bytes_eq part (codes ".")
    then kept
    else if bytes_eq part (codes "..")
    then drop 1 kept
    else part ∷ kept

unfoldable pub clean_parts : List Bytes → List Bytes → List Bytes
unfolding clean_part
clean_parts kept [] = kept
clean_parts kept (part ∷ parts) = clean_parts (clean_part kept part) parts

unfoldable pub reverse_parts : List Bytes → List Bytes → List Bytes
reverse_parts out [] = out
reverse_parts out (p ∷ ps) = reverse_parts (p ∷ out) ps

unfoldable pub kept_parts : Bytes → List Bytes
unfolding clean_parts reverse_parts split
kept_parts p = reverse_parts [] (clean_parts [] (split p (b'/' ∷ [])))

-- `path.Clean` of a path that starts with `/`.
unfoldable pub clean_from_root : Bytes → Bytes
unfolding kept_parts join
clean_from_root p = b'/' ∷ join (kept_parts p) (b'/' ∷ [])

-- A `..` of a path that does not start with `/`, which is kept where nothing is left to go up from.
go_up : List Bytes → List Bytes
go_up [] = codes ".." ∷ []
go_up (k ∷ kept) = if bytes_eq k (codes "..") then codes ".." ∷ k ∷ kept else kept

relative_part : List Bytes → Bytes → List Bytes
unfolding go_up
relative_part kept part =
    if bytes_eq part [] || bytes_eq part (codes ".")
    then kept
    else if bytes_eq part (codes "..")
    then go_up kept
    else part ∷ kept

relative_parts : List Bytes → List Bytes → List Bytes
unfolding relative_part
relative_parts kept [] = kept
relative_parts kept (part ∷ parts) = relative_parts (relative_part kept part) parts

joined_or_dot : List Bytes → Bytes
unfolding join
joined_or_dot [] = codes "."
joined_or_dot (part ∷ parts) = join (part ∷ parts) (b'/' ∷ [])

-- `path.Clean` of a path that does not.
unfoldable pub clean_relative : Bytes → Bytes
unfolding relative_parts reverse_parts joined_or_dot split
clean_relative p = joined_or_dot (reverse_parts [] (relative_parts [] (split p (b'/' ∷ []))))

unfoldable pub is_rooted : Bytes → Bool
is_rooted [] = false
is_rooted (c ∷ p) = c == b'/'

-- `path.Clean`.
unfoldable pub clean : Bytes → Bytes
unfolding clean_from_root clean_relative is_rooted
clean p = if is_rooted p then clean_from_root p else clean_relative p

unfoldable pub ends_in_slash : Bytes → Bool
ends_in_slash [] = false
ends_in_slash (c ∷ []) = c == b'/'
ends_in_slash (c ∷ d ∷ s) = ends_in_slash (d ∷ s)

-- `p` with a `/` before it, if it has none.
unfoldable pub rooted : Bytes → Bytes
rooted [] = b'/' ∷ []
rooted (c ∷ p) = if c == b'/' then c ∷ p else b'/' ∷ c ∷ p

-- The end of `cleanPath`, with what `path.Clean` gives.
unfoldable pub finish : Bytes → Bytes → Bytes
unfolding ends_in_slash
finish p np = if ends_in_slash p && not (bytes_eq np (b'/' ∷ [])) then np ++ b'/' ∷ [] else np

unfoldable pub clean_path : Bytes → Bytes
unfolding clean finish rooted
clean_path [] = b'/' ∷ []
clean_path (c ∷ p) = finish (rooted (c ∷ p)) (clean (rooted (c ∷ p)))

pub data Handler : Type 0 where
  host_meta root data_resource operations yang_lib_ver : Handler

abbrev pub Mux : Type 0
Mux = List (Bytes × Handler)

pub record Request : Type 0 where
  pub method : Bytes
  pub accept : Bytes
  pub url_path : Bytes

-- What was written to the writer: the status, which is 200 where none was written, the fields of the
-- header and the body.
pub record Response : Type 0 where
  pub status : ℕ
  pub fields : List (Bytes × Bytes)
  pub body : Bytes

abbrev pub empty_response : Response
empty_response = record { status = 200; fields = []; body = [] }

abbrev pub application_xrd_xml : Bytes
application_xrd_xml = codes "application/xrd+xml"

abbrev pub application_data_xml : Bytes
application_data_xml = codes "application/yang-data+xml"

abbrev pub application_data_json : Bytes
application_data_json = codes "application/yang-data+json"

abbrev pub restconf_prefix : Bytes
restconf_prefix = codes "/restconf"

-- The values that are encoded.
pub data Document : Type 0 where
  rest_conf_root rest_conf_json yang_lib_ver_document : Document

-- `http.Error`.
unfoldable pub http_error : Response → Bytes → ℕ → Response
unfolding put
http_error rsp text code = record rsp {
  status = code;
  fields =
      put (codes "X-Content-Type-Options") (codes "nosniff")
        (put (codes "Content-Type") (codes "text/plain; charset=utf-8") rsp.fields);
  body = rsp.body ++ (text ++ b'\n' ∷ []);
}

unfoldable pub succeed : Response → Bytes → Bytes → Response
unfolding put
succeed rsp format body = record rsp {
  status = 200;
  fields = put (codes "Content-Type") format rsp.fields;
  body = rsp.body ++ body;
}

unfoldable pub host_meta_body : Bytes
host_meta_body =
    codes "<XRD xmlns='http://docs.oasis-open.org/ns/xri/xrd-1.0'>\n\t\t<Link rel='restconf' href='"
    ++ (restconf_prefix ++ codes "'/>\n\t</XRD>")

unfoldable pub run_host_meta : Response → Request → Response
unfolding http_error succeed host_meta_body
run_host_meta rsp req =
    if not (bytes_eq req.method (codes "GET"))
    then http_error rsp (codes "method is not GET!") 400
    else if not (bytes_eq req.accept application_xrd_xml)
    then http_error rsp (codes "Accept is incorrect!") 400
    else succeed rsp application_xrd_xml host_meta_body

-- `Reg`; `none` is the end of the process by `log.Fatal`.
unfoldable pub reg : Bytes → Handler → Mux → Option Mux
unfolding get put
reg url handler mux = if is_some (get url mux) then none else some (put url handler mux)

abbrev pub then_reg : Bytes → Handler → Option Mux → Option Mux
then_reg url handler none = none
then_reg url handler (some mux) = reg url handler mux

unfoldable pub new_rest_conf : Option Mux
unfolding reg
new_rest_conf = then_reg (restconf_prefix ++ codes "/yang-library-version") yang_lib_ver (
    then_reg (restconf_prefix ++ codes "/operations") operations (
      then_reg (restconf_prefix ++ codes "/data") data_resource
        (then_reg restconf_prefix root (reg (codes "/.well-known/host-meta") host_meta []))))

unfoldable pub first_prefix : Bytes → Mux → Option Handler
unfolding is_prefix
first_prefix path [] = none
first_prefix path ((url, h) ∷ mux) = if is_prefix url path then some h else first_prefix path mux

-- The handler that `ServeHTTP` runs.
unfoldable pub route : Bytes → Mux → Option Handler
unfolding get first_prefix
route path mux = elim (get path mux) [ some h ↦ some h | none ↦ first_prefix path mux ]

module _ (marshal : Bytes → Document → Bytes ⊎ Bytes) (date : Bytes) where
  -- The answer with an encoded document: the encoders give an error or a text.
  unfoldable pub answer : Response → Bytes → Bytes ⊎ Bytes → Response
  unfolding http_error succeed
  answer rsp format (inl why) = http_error rsp (codes "Marshal failed!" ++ why) 417
  answer rsp format (inr body) = succeed rsp format body

  -- The switch of `Root` and `YangLibVer` on the format, with the documents for XML and JSON.
  unfoldable pub run_document : Document → Document → Response → Request → Response
  unfolding answer
  run_document xml json rsp req =
      if bytes_eq req.accept application_data_xml
      then answer rsp req.accept (marshal req.accept xml)
      else if bytes_eq req.accept application_data_json
      then answer rsp req.accept (marshal req.accept json)
      else http_error rsp (codes "Accept is incorrect!") 400

  unfoldable pub run_handler : Handler → Response → Request → Response
  unfolding run_host_meta run_document
  run_handler host_meta rsp req = run_host_meta rsp req
  run_handler root rsp req = run_document rest_conf_root rest_conf_json rsp req
  run_handler data_resource rsp req = rsp
  run_handler operations rsp req = rsp
  run_handler yang_lib_ver rsp req =
      run_document yang_lib_ver_document yang_lib_ver_document rsp req

  -- The function that `Reg` stores for a handler.
  unfoldable pub registered : Handler → Response → Request → Response
  unfolding run_handler put
  registered h rsp req =
      run_handler h
        (record rsp {
          fields = put (codes "Date") date (put (codes "Server") (codes "RESTCONF") rsp.fields);
        })
        req

  unfoldable pub serve_http : Mux → Request → Response
  unfolding route registered http_error clean_path
  serve_http mux req = elim (route (clean_path req.url_path) mux) [
    | some h ↦ registered h empty_response req
    | none ↦ http_error empty_response (codes "404 page not found") 404
  ]
