-- ===== src/VideoWorker/Platforms.antt =====
-- video-worker/platforms.py: which URLs the worker fetches. A URL is given by what `urlparse` reads of
-- it; the classes of an address and the answers of the resolver are parameters.
pub mod Boundary
use ai_trans_clips_tts.Prelude.{
  ℕ, Bool, true, false, ◌&&◌, ◌||◌, not, Option, none, some, List, [], ◌∷◌, ◌++◌, ◌==◌, nat_eq,
  list_eq, if◌then◌else◌, leb, length, any,
}
use mathlib.Core.List.{reverse}
use ai_trans_clips_tts.Prelude.Text.{Text, codes, lower, strip, starts_with}

pub record ParsedUrl : Type 0 where
  pub scheme : Text
  pub hostname : Option Text

-- DEFAULT_PLATFORMS
abbrev pub Platforms : Type 0
Platforms = List (Text × List Text)

unfoldable pub default_platforms : Platforms
default_platforms =
    (
      codes "youtube",
      codes "youtube.com"
          ∷ codes "youtu.be"
          ∷ codes "youtube-nocookie.com"
          ∷ codes "googlevideo.com"
          ∷ [],
    )
    ∷ (codes "instagram", codes "instagram.com" ∷ codes "cdninstagram.com" ∷ [])
    ∷ (
      codes "facebook",
      codes "facebook.com" ∷ codes "fb.watch" ∷ codes "fbcdn.net" ∷ codes "fbsbx.com" ∷ [],
    )
    ∷ (codes "tiktok", codes "tiktok.com" ∷ codes "tiktokv.com" ∷ codes "tiktokcdn.com" ∷ [])
    ∷ (
      codes "douyin",
      codes "douyin.com"
          ∷ codes "iesdouyin.com"
          ∷ codes "douyinpic.com"
          ∷ codes "douyinvod.com"
          ∷ [],
    )
    ∷ (codes "pinterest", codes "pinterest.com" ∷ codes "pin.it" ∷ codes "pinimg.com" ∷ [])
    ∷ (codes "bilibili", codes "bilibili.com" ∷ codes "b23.tv" ∷ [])
    ∷ []

-- `s.endswith(suffix)`
unfoldable pub ends_with : Text → Text → Bool
unfolding starts_with
ends_with suffix s = starts_with (reverse suffix) (reverse s)

unfoldable pub drop_dots : Text → Text
drop_dots [] = []
drop_dots (c ∷ s) = if c == 46 then drop_dots s else c ∷ s

-- `s.rstrip(".")`
unfoldable pub rstrip_dots : Text → Text
unfolding drop_dots
rstrip_dots s = reverse (drop_dots (reverse s))

-- `hostname or ""`
abbrev pub or_empty : Option Text → Text
or_empty none = []
or_empty (some host) = host

-- The host itself or a subdomain of it.
unfoldable pub belongs_to : Text → Text → Bool
unfolding ends_with
belongs_to host suffix = host == suffix || ends_with (46 ∷ suffix) host

unfoldable pub find_platform : Text → Platforms → Option Text
unfolding belongs_to
find_platform host [] = none
find_platform host ((name, suffixes) ∷ rest) =
    if any (λ suffix. belongs_to host suffix) suffixes then some name else find_platform host rest

abbrev pub host_of : ParsedUrl → Text
host_of url = rstrip_dots (lower (or_empty url.hostname))

abbrev pub is_empty : Text → Bool
is_empty [] = true
is_empty (c ∷ s) = false

unfoldable pub platform_of : Platforms → ParsedUrl → Option Text
unfolding find_platform
platform_of platforms url =
    if is_empty (host_of url) then none else find_platform (host_of url) platforms

-- Whether an address is private, loopback, link local, reserved, multicast or unspecified; None when
-- the text is no address. What a name resolves to; None when the resolver fails.
pub record Network : Type 0 where
  pub is_inner : Text → Option Bool
  pub resolve : Text → Option (List Text)

-- `_ip_is_private`, which refuses what it cannot read
unfoldable pub ip_is_private : Network → Text → Bool
ip_is_private net ip = elim (net.is_inner ip) [ none ↦ true | some inner ↦ inner ]

abbrev pub is_local_name : Text → Bool
is_local_name host =
    host == codes "localhost"
    || ends_with (codes ".local") host
    || ends_with (codes ".internal") host
    || ends_with (codes ".lan") host

unfoldable pub resolves_inside : Network → Option (List Text) → Bool
unfolding ip_is_private
resolves_inside net none = true
resolves_inside net (some ips) = any (λ ip. ip_is_private net ip) ips

unfoldable pub address_is_private : Network → Text → Option Bool → Bool
unfolding resolves_inside
address_is_private net host (some inner) = inner
address_is_private net host none = resolves_inside net (net.resolve host)

unfoldable pub is_private_host : Network → Text → Bool
unfolding address_is_private rstrip_dots lower strip
is_private_host net hostname =
    let host = rstrip_dots (lower (strip hostname)) in
    if is_empty host
    then true
    else if is_local_name host
    then true
    else address_is_private net host (net.is_inner host)

-- The messages of ValueError.
pub data UrlError : Type 0 where
  bad_scheme bad_host unsupported_platform : UrlError

-- `validate_url`; None is the return.
unfoldable pub validate_url : Network → Platforms → ParsedUrl → Option UrlError
unfolding is_private_host platform_of
validate_url net platforms url =
    if not (url.scheme == codes "http" || url.scheme == codes "https")
    then some UrlError.bad_scheme
    else if is_empty (or_empty url.hostname) || is_private_host net (or_empty url.hostname)
    then some UrlError.bad_host
    else elim (platform_of platforms url) [
      | none ↦ some UrlError.unsupported_platform
      | some name ↦ none
    ]
