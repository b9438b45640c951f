-- ===== src/Keyset/NewKeys.antt =====
-- new_keys, new_csk_or_ksk_zsk and remove_key (src/commands/keyset/cmd.rs), as built without the
-- feature `kmip`: keys are generated by the `domain` crate and kept in files. The choice of a
-- path, the formatting of numbers, URLs and the files belong to crates and the system.
pub mod Draw
use Prim.Native.String.{◌++◌}
use dnst.Base.{
  ℕ, zero, suc, ◌==◌, String, Bool, true, false, Option, none, some, List, [], ◌∷◌, Result, ok, err,
  any, if◌then◌else◌,
}
use dnst.Keyset.Types.{Key}
use dnst.Keyset.Workspace.{WorkSpace, KeySetState, KeySetConfig, KeySet, KeySetError, KeyParameters}
use dnst.Keyset.Run.{Machine, Run, ◌>>=◌, return, fail, from_result, on_world}

-- A secret key and its DNSKEY record, and what is done with them and with files. A new file is
-- created for reading and writing and must not exist.
pub record Backend (S P W : Type 0) : Type 0 where
  pub generate : KeyParameters → ℕ → Run W (S × P)
  pub key_tag : P → ℕ
  pub algorithm : P → ℕ
  pub format_number : ℕ → ℕ → String
  pub push_path : String → String → String
  pub display_secret : S → String
  pub display_public : P → String
  pub path_text : String → Result String String
  pub parse_url : String → Result String String
  pub url_scheme : String → String
  pub url_path : String → String
  pub same_text : String → String → Bool
  pub create_new_file : String → ℕ → Run W (Unit {0})
  pub write_all : String → String → Run W (Unit {0})
  pub remove_file : String → Run W (Unit {0})

abbrev pub max_key_tag_tries : ℕ
max_key_tag_tries = 10

-- The URLs of the public and the private key, the algorithm and the key tag.
abbrev pub NewKey : Type 0
NewKey = String × String × ℕ × ℕ

abbrev pub tag_in_use : List (String × Key) → ℕ → Bool
tag_in_use keys tag = any (λ (_, k). k.key_tag == tag) keys

module _ {S P W : Type 0} (backend : Backend S P W) (algorithm : KeyParameters) (flags : ℕ)
    (keys : List (String × Key)) where
  -- The loop, with the tries that are left after this one.
  unfoldable pub generate_unique : ℕ → Run W (S × P)
  generate_unique zero = do
    (secret, public) ← backend.generate algorithm flags
    if tag_in_use keys (backend.key_tag public)
        then fail "unable to generate key with unique key tag"
        else return (secret, public)
  generate_unique (suc retries) = do
    (secret, public) ← backend.generate algorithm flags
    let again = generate_unique retries
    if tag_in_use keys (backend.key_tag public) then again else return (secret, public)

module _ {S P W : Type 0} (backend : Backend S P W) (zone : String) where
  open backend use {
    key_tag, algorithm, format_number, push_path, display_secret, display_public, path_text,
    parse_url, create_new_file, write_all,
  }

  -- The name of the files without extension, for a zone with a dot at the end of its name.
  abbrev pub base_name : P → String
  base_name public =
      "K"
      ++ (zone
          ++ ("+"
              ++ (format_number 3 (algorithm public) ++ ("+" ++ format_number 5 (key_tag public)))))

  abbrev pub file_url : String → Run W String
  file_url path = do
    text ← from_result (path_text path)
    from_result (parse_url ("file://" ++ text))

  -- The files are written and their URLs made.
  unfoldable pub store_key : String → S × P → Run W NewKey
  store_key keys_dir (secret, public) = do
    let secret_path = push_path keys_dir (base_name public ++ ".private")
    let public_path = push_path keys_dir (base_name public ++ ".key")
    _ ← create_new_file secret_path 384
    _ ← create_new_file public_path 420
    _ ← write_all secret_path (display_secret secret)
    _ ← write_all public_path (display_public public)
    secret_url ← file_url secret_path
    public_url ← file_url public_path
    return (public_url, secret_url, algorithm public, key_tag public)

module _ {S P W K Name : Type 0} (backend : Backend S P W) (lib : KeySet K) (zone : String) where
  unfoldable pub new_keys : Bool → Run (Machine K Name W) NewKey
  unfolding generate_unique store_key
  new_keys make_ksk m =
      on_world
        (do
          made ←
              generate_unique backend m.space.config.algorithm (if make_ksk then 257 else 256)
                (lib.keys m.space.state.keyset) 9
          store_key backend zone m.space.config.keys_dir made)
        m

module _ {S P W K Name : Type 0} (backend : Backend S P W) where
  open backend use {url_scheme, url_path, same_text, remove_file}

  unfoldable pub remove_key : String → Run (Machine K Name W) (Unit {0})
  remove_key url =
      if same_text (url_scheme url) "file"
      then on_world (remove_file (url_path url))
      else fail "Unsupported URL scheme while removing key"
