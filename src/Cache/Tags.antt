-- ===== src/Cache/Tags.antt =====
-- packages/cache/src/tags.ts: the tags that the site collects and the API purges.
use Prim.Native.Char.{code}
use Prim.Native.String
use Prim.Native.String.{◌++◌}
use presslabz.Base.{
  Bool, true, false, ◌&&◌, ◌||◌, Option, none, some, String, leb, ◌==◌, if◌then◌else◌,
}

abbrev is_lower : Prim.Native.Char.Char → Bool
is_lower c = leb b'a' (code c) && leb (code c) b'z'

abbrev is_digit : Prim.Native.Char.Char → Bool
is_digit c = leb b'0' (code c) && leb (code c) b'9'

abbrev is_upper : Prim.Native.Char.Char → Bool
is_upper c = leb b'A' (code c) && leb (code c) b'Z'

-- `[A-Za-z0-9:_-]*`
unfoldable pub identifier_characters : String → Bool
identifier_characters String.[] = true
identifier_characters (String.◌∷◌ c s) =
    (is_upper c || is_lower c || is_digit c || code c == b':' || code c == b'_' || code c == b'-')
    && identifier_characters s

unfoldable pub is_identifier : String → Bool
unfolding identifier_characters
is_identifier s =
    leb 1 (Prim.Native.String.count s)
    && leb (Prim.Native.String.count s) 192
    && identifier_characters s

-- `[a-z0-9-]*:` and the identifier behind it.
unfoldable pub after_namespace : String → Bool
unfolding is_identifier
after_namespace String.[] = false
after_namespace (String.◌∷◌ c s) =
    let rest = after_namespace s in
    if code c == b':' then is_identifier s else (is_lower c || is_digit c || code c == b'-') && rest

unfoldable pub is_tag : String → Bool
unfolding after_namespace
is_tag String.[] = false
is_tag (String.◌∷◌ c s) = is_lower c && after_namespace s

-- `none` is the error that it throws.
unfoldable pub assert_tag : String → Option String
unfolding is_tag
assert_tag tag = if is_tag tag then some tag else none

unfoldable pub content_tag : String → Option String
unfolding assert_tag
content_tag id = assert_tag ("content:" ++ id)

unfoldable pub content_list_tag : String → String → Option String
unfolding assert_tag
content_list_tag type locale = assert_tag ((("list:" ++ type) ++ ":") ++ locale)

unfoldable pub translation_group_tag : String → Option String
unfolding assert_tag
translation_group_tag id = assert_tag ("group:" ++ id)

unfoldable pub media_tag : String → Option String
unfolding assert_tag
media_tag id = assert_tag ("media:" ++ id)
