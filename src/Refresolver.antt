-- ===== src/Refresolver.antt =====
-- internal/refresolver: the registry of refresolver.go with the caches in front of the resolvers
-- (cache.go). The resolvers, the remote driver, the file system and SHA-256 are arguments: what one
-- answers may differ from call to call. Bytes are a text; debug events are left out.
pub mod Cached
pub mod Recalled
pub mod Again
pub mod Sessions
use Prim.Native.Char.{code}
use Prim.Native.String.{◌++◌ as str_append}
use tkn_act.Base.{
  ℕ, String, Bool, true, false, not, ◌&&◌, ◌||◌, ◌==◌, ltb, nat_eq, Option, none, some, List, [],
  ◌∷◌, if◌then◌else◌, Map, lookup, insert, keys, or_else, mem, is_some, Result, ok, err,
}
use tkn_act.Base.Order.{sort}

pub data Kind : Type 0 where
  kind_task kind_pipeline : Kind

pub record Request : Type 0 where
  pub kind : Kind
  pub resolver : String
  pub params : Map String

pub record Resolved : Type 0 where
  pub bytes : String
  pub source : String
  pub sha256 : String
  pub cached : Bool

pub data ResolveError : Type 0 where
  empty_name : ResolveError
  not_allowed cache_miss not_registered : String → ResolveError
  fetch_failed : String → ResolveError

-- What a file of the cache holds, and its metadata: the source and the digest, if they were written.
pub record Blob : Type 0 where
  pub bytes : String
  pub meta : Option (String × String)

-- `allow` is none where no allow-list applies; `disk` is none without a cache on disk, and else maps
-- the paths below its root.
pub record Registry : Type 0 where
  pub direct : List String
  pub remote : Bool
  pub allow : Option (List String)
  pub per_run : Map Resolved
  pub disk : Option (Map Blob)
  pub offline : Bool

pub data Written : Type 0 where
  wrote_nothing wrote_bytes wrote_all : Written

-- How the file system and the outside answer while one request is served.
pub record World : Type 0 where
  pub readable : Bool
  pub meta_readable : Bool
  pub written : Written
  pub fetch : Request → Result String Resolved

-- the text that a cache key is the digest of; 0 stands between its parts
abbrev nul : String
nul = "\0"

unfoldable pub key_fields : Map String → List String → Bool → String
key_fields params [] first = ""
key_fields params (k ∷ ks) first = str_append (if first then "" else nul) (
    str_append k
      (str_append "=" (str_append (or_else (lookup k params) "") (key_fields params ks false))))

unfoldable pub key_text : String → Map String → String
unfolding key_fields
key_text resolver params =
    str_append resolver (str_append nul (key_fields params (sort (keys params)) true))

-- a character of a name that stays as it is in a directory's name
abbrev is_plain : ℕ → Bool
is_plain c =
    not (ltb c b'a') && not (ltb b'z' c)
    || not (ltb c b'A') && not (ltb b'Z' c)
    || not (ltb c b'0') && not (ltb b'9' c)
    || nat_eq c b'-'
    || nat_eq c b'_'

-- one for each byte of the character
abbrev underscores : ℕ → String
underscores c =
    if ltb c 128 then "_" else if ltb c 2048 then "__" else if ltb c 65536 then "___" else "____"

abbrev plain_chars : String → String
plain_chars String.[] = String.[]
plain_chars (String.◌∷◌ c s) =
    if is_plain (code c)
    then String.◌∷◌ c (plain_chars s)
    else str_append (underscores (code c)) (plain_chars s)

unfoldable pub sanitize : String → String
sanitize name = if name == "" then "_unnamed" else plain_chars name

abbrev pub allow_list_includes : List String → String → Bool
allow_list_includes allow name = mem name allow

-- SetAllow
unfoldable pub set_allow : List String → Registry → Registry
set_allow [] r = record r { allow = none }
set_allow (n ∷ ns) r = record r { allow = some (n ∷ ns) }

unfoldable pub register : String → Registry → Registry
register name r = record r { direct = if mem name r.direct then r.direct else name ∷ r.direct }

pub record Options : Type 0 where
  pub allow : List String
  pub cache_dir : String
  pub offline : Bool
  pub allow_cluster : Bool
  pub cluster_resolver_context : String

-- NewDefaultRegistry, with what is on disk below the cache directory
unfoldable pub new_default_registry : Options → Map Blob → Registry
unfolding register
new_default_registry opts files =
    let r : Registry = record {
      direct = [];
      remote = false;
      allow = elim opts.allow [ [] ↦ none | n ∷ ns ↦ some (n ∷ ns) ];
      per_run = [];
      disk = if opts.cache_dir == "" then none else some files;
      offline = opts.offline;
    } in
    let shipped =
      register "bundles"
        (register "http" (register "hub" (register "git" (register "inline" r)))) in
    if opts.allow_cluster
      || allow_list_includes opts.allow "cluster"
      || not (opts.cluster_resolver_context == "")
    then register "cluster" shipped
    else shipped
