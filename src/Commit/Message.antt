-- ===== src/Commit/Message.antt =====
-- `derive_signoff_trailer` and `with_signoff` of create-signed-commit.py.
pub mod Once
use codex_platform.Base.{
  ℕ, Bool, true, false, ◌||◌, ◌&&◌, List, [], ◌∷◌, ◌++◌, Text, codes, has_part, leb, ◌==◌,
  if◌then◌else◌, all,
}

-- The characters that `str.strip` and `str.rstrip` take off.
abbrev pub is_space : ℕ → Bool
is_space c =
    (leb 9 c && leb c 13)
    || (leb 28 c && leb c 32)
    || c == 0x85
    || c == 0xa0
    || c == 0x1680
    || (leb 0x2000 c && leb c 0x200a)
    || c == 0x2028
    || c == 0x2029
    || c == 0x202f
    || c == 0x205f
    || c == 0x3000

pub rstrip : Text → Text
rstrip [] = []
rstrip (c ∷ s) = if all is_space (c ∷ s) then [] else c ∷ rstrip s

pub lstrip : Text → Text
lstrip [] = []
lstrip (c ∷ s) = let rest = lstrip s in if is_space c then rest else c ∷ s

pub strip : Text → Text
strip s = rstrip (lstrip s)

abbrev pub marker : Text
marker = codes "Signed-off-by:"

-- The name and the address that follow the marker.
abbrev pub bot_name : Text → Text
bot_name slug = slug ++ codes "[bot]"

abbrev pub identity : Text → Text
identity slug =
    codes " " ++ bot_name slug ++ codes " <" ++ bot_name slug ++ codes "@users.noreply.github.com>"

pub derive_signoff_trailer : Text → Text
derive_signoff_trailer slug = marker ++ identity slug

pub with_signoff : Text → Text → Text
with_signoff message trailer =
    if has_part marker message
    then message
    else rstrip message ++ (codes "\n\n" ++ (trailer ++ codes "\n"))

-- Names what a run of these opens.
unfoldable pub message_run : Unit {0}
unfolding rstrip lstrip strip derive_signoff_trailer with_signoff
message_run = tt
