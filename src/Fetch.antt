-- ===== src/Fetch.antt =====
-- internal/fetch/fetch.go: the cutting of texts, the workspace volume, the redirect policy.
pub mod Cut
use yougpu_agent.Prelude.{
  ℕ, ◌+◌, ltb, leb, String, Char, code, Bool, ◌&&◌, ◌||◌, not, Option, none, some, List, [], ◌∷◌,
  ◌==◌, is_empty, if◌then◌else◌,
}
use yougpu_agent.Spec.{AgentContainerSpec, ContainerVolume}

-- utf16.RuneLen, with the 1 that stands in for a lone surrogate.
unfoldable pub rune_len : Char → ℕ
rune_len c = if ltb (code c) 0x10000 then 1 else 2

-- The loop of Clip: `units` are those of the text already passed.
unfoldable pub clip_from : ℕ → ℕ → String → String
clip_from n units String.[] = ""
clip_from n units (String.◌∷◌ c s) =
    let rest = clip_from n (units + rune_len c) s in
    if ltb n (units + rune_len c) then "" else String.◌∷◌ c rest

unfoldable pub clip : String → ℕ → String
unfolding clip_from
clip s n = clip_from n 0 s

-- `reverse_onto s t` is the text s, last character first, before t.
abbrev pub reverse_onto : String → String → String
reverse_onto String.[] t = t
reverse_onto (String.◌∷◌ c s) t = reverse_onto s (String.◌∷◌ c t)

-- The loop of ClipTail: the text is given last character first, `out` is s[i:].
clip_tail_from : ℕ → ℕ → String → String → String
clip_tail_from n units String.[] out = out
clip_tail_from n units (String.◌∷◌ c s) out =
    let rest = clip_tail_from n (units + rune_len c) s (String.◌∷◌ c out) in
    if ltb n (units + rune_len c) then out else rest

unfoldable pub clip_tail : String → ℕ → String
unfolding clip_tail_from
clip_tail s n = clip_tail_from n 0 (reverse_onto s "") ""

abbrev pub workspace_container_path : String
workspace_container_path = "/workspace"

abbrev first_workspace : List ContainerVolume → String
first_workspace [] = ""
first_workspace (v ∷ vs) =
    if v.container == workspace_container_path && not (is_empty v.host)
    then v.host
    else first_workspace vs

-- The host folder of the first usable /workspace volume, or the empty text.
unfoldable pub workspace_root : Option AgentContainerSpec → String
workspace_root none = ""
workspace_root (some spec) = first_workspace spec.volumes

abbrev pub max_redirects : ℕ
max_redirects = 5

pub data Redirect : Type 0 where
  follow too_many downgrade : Redirect

-- checkRedirect, given the number of requests made, the scheme of the last and of the next.
unfoldable pub check_redirect : ℕ → String → String → Redirect
check_redirect made last next =
    if ltb max_redirects made
    then too_many
    else if last == "https" && not (next == "https")
    then downgrade
    else follow
