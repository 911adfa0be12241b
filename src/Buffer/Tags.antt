-- ===== src/Buffer/Tags.antt =====
-- The tags of a buffer, `Tag` and `Tags` of promolog.go.
use promolog.Prelude.{
  ◌≡◌, refl, Option, none, some, [], ◌∷◌, if◌then◌else◌, Str, str_eq, Dict, lookup, insert,
  lookup-insert, ap, sym, ◌∙◌,
}
use promolog.Trace.{Time}
use promolog.Buffer.{Buffer, tag, tags, copy_tags, tags_or_new, get_entries}

-- `m[k]` of a map that may be nil.
unfoldable pub lookup_tag : Str → Option (Dict Str) → Option Str
lookup_tag k none = none
lookup_tag k (some m) = lookup k m

lookup_tag-copy_tags :
    (j : Str) (m : Option (Dict Str)) → lookup_tag j (copy_tags m) ≡ lookup_tag j m
unfolding lookup_tag copy_tags lookup
lookup_tag-copy_tags j none = refl
lookup_tag-copy_tags j (some []) = refl
lookup_tag-copy_tags j (some (e ∷ m)) = refl

lookup-tags_or_new : (j : Str) (m : Option (Dict Str)) → lookup j (tags_or_new m) ≡ lookup_tag j m
unfolding lookup_tag lookup
lookup-tags_or_new j none = refl
lookup-tags_or_new j (some m) = refl

-- After `Tag(k, v)` the copy that `Tags` returns maps `k` to `v` and every other key as before,
-- and the entries of the buffer are the same.
pub tags-tag :
    (now : Time) (k v j : Str) (b : Buffer)
    → (lookup_tag j (tags (tag k v b)) ≡ (if str_eq k j then some v else lookup_tag j (tags b)))
      × (get_entries now (tag k v b) ≡ get_entries now b)
unfolding tag tags get_entries lookup_tag lookup
tags-tag now k v j b = (
  lookup_tag-copy_tags j (some (insert k v (tags_or_new b.tags)))
      ∙ lookup-insert k j v (tags_or_new b.tags)
      ∙ ap (λ o. if str_eq k j then some v else o)
          (lookup-tags_or_new j b.tags ∙ sym (lookup_tag-copy_tags j b.tags)),
  refl,
)
