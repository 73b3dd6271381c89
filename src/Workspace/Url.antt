-- ===== src/Workspace/Url.antt =====
-- canonical_url.go: URLs in the form that edge discovery compares, and the URL shown for a repository.
use nix_repo_base.Base.{
  Bool, true, false, not, ◌&&◌, Option, none, some, List, [], ◌∷◌, ◌++◌, leb, str_eq, if◌then◌else◌,
}
use nix_repo_base.Base.Bytes.{
  Bytes, ascii, strip_prefix?, has_prefix, trim_prefix, trim_suffix, cut, has_byte, to_lower,
}
use nix_repo_base.Workspace.Config.{Remote, RepoConfig}

unfoldable pub normalize_path : Bytes → Bytes
unfolding to_lower trim_suffix strip_prefix?
normalize_path s =
    trim_suffix (ascii "/") (trim_suffix (ascii ".git") (trim_suffix (ascii ".git") (to_lower s)))

all_digits : Bytes → Bool
all_digits [] = true
all_digits (c ∷ s) = leb b'0' c && leb c b'9' && all_digits s

is_port : Bytes → Bool
unfolding all_digits
is_port [] = false
is_port (c ∷ s) = all_digits (c ∷ s)

-- The text behind the colon up to the next slash, and the rest from the slash on.
port_and_rest : Bytes → Bytes × Bytes
unfolding cut
port_and_rest after = elim (cut b'/' after) [ none ↦ (after, []) | some (p, r) ↦ (p, b'/' ∷ r) ]

unfoldable pub strip_port : Bytes → Bytes
unfolding is_port port_and_rest cut
strip_port s = elim (cut b':' s) [
  | none ↦ s
  | some (host, after) ↦
      let (port, rest) = port_and_rest after in if is_port port then host ++ rest else s
]

-- strings.SplitN(spec, "/", 3), joined again from its first two parts.
owner_and_repo : Bytes → Bytes
unfolding cut
owner_and_repo spec = elim (cut b'/' spec) [
  | none ↦ spec
  | some (owner, rest) ↦
      owner ++ b'/' ∷ elim (cut b'/' rest) [ none ↦ rest | some (repo, more) ↦ repo ]
]

-- `git@host:path` and what is left: an `@` with no slash before it.
scp_or_plain : Bytes → Option (Bytes × Bytes) → Bytes
unfolding normalize_path has_byte cut
scp_or_plain s none = normalize_path s
scp_or_plain s (some (user, rest)) =
    if not (has_byte b'/' user)
    then normalize_path
        (elim (cut b':' rest) [ none ↦ rest | some (host, path) ↦ host ++ b'/' ∷ path ])
    else normalize_path s

after_user : Bytes → Bytes
unfolding cut
after_user s = elim (cut b'@' s) [ none ↦ s | some (user, rest) ↦ rest ]

by_scheme : Bytes → Bytes
unfolding strip_prefix? strip_port owner_and_repo scp_or_plain after_user
by_scheme s = elim (strip_prefix? (ascii "github:") s) [
  | some spec ↦ to_lower (ascii "github.com/" ++ owner_and_repo spec)
  | none ↦ elim (strip_prefix? (ascii "ssh://") s) [
    | some rest ↦ normalize_path (trim_prefix (ascii "/") (strip_port (after_user rest)))
    | none ↦ elim (strip_prefix? (ascii "https://") s) [
      | some rest ↦ normalize_path rest
      | none ↦ scp_or_plain s (cut b'@' s)
    ]
  ]
]

unfoldable pub canonical_url : Bytes → Bytes
unfolding by_scheme
canonical_url [] = []
canonical_url (c ∷ s) =
    if has_prefix (ascii "path:") (c ∷ s)
    then []
    else by_scheme (trim_prefix (ascii "git+") (c ∷ s))

origin_or_first : List Remote → Bytes → Bytes
origin_or_first [] first = first
origin_or_first (r ∷ rs) first = if str_eq r.name "origin" then r.url else origin_or_first rs first

abbrev first_url : List Remote → Bytes
first_url [] = []
first_url (r ∷ rs) = r.url

unfoldable pub display_url : RepoConfig → Bytes
unfolding origin_or_first
display_url r = elim r.url [ [] ↦ origin_or_first r.remotes (first_url r.remotes) | c ∷ s ↦ r.url ]
