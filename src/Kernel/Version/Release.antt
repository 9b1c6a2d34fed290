-- ===== src/Kernel/Version/Release.antt =====
-- `Version::cached` from the text of the file /proc/sys/kernel/osrelease on.
use async_procfs.Prelude.{
  ◌≡◌, ◌≢◌, ◌++◌, refl, All, All-append, List, [], ◌∷◌, Text, codes, returned,
}
use async_procfs.Std.Chars.{is_whitespace}
use async_procfs.Std.Strings.Laws.{Full, Free}
use async_procfs.Std.Strings.{join_with}
use async_procfs.Std.Ints.{show_uint}
use async_procfs.Std.Ints.RoundTrip.{show_uint_head}
use async_procfs.Env.{Env}
use async_procfs.Machine.{State}
use async_procfs.Procfs.{AsyncProcfs, read_options}
use async_procfs.Helpers.RoundTrip.{show_uint-Free, read_value_word}
use async_procfs.Kernel.Version.{Version, IsVersion, to_u32, from_str, current, cached}
use async_procfs.Kernel.Version.Parse.{Stops, show_version, from_str-show_version}
use async_procfs.Kernel.Version.Cache.{cached_miss}

joined-Free :
    (ps : List Text) → All (Free is_whitespace) ps → Free is_whitespace (join_with b'.' ps)
unfolding join_with is_whitespace
joined-Free [] h = tt
joined-Free (p ∷ []) h = h.0
joined-Free (p ∷ q ∷ ps) h = All-append _ p _ h.0 (refl, joined-Free (q ∷ ps) h.1)

-- The print of a version is a word.
show_version-Free : (v : Version) → Free is_whitespace (show_version v)
unfolding show_version
show_version-Free v =
    joined-Free (show_uint v.major ∷ show_uint v.minor ∷ show_uint v.patch ∷ [])
      (show_uint-Free v.major, (show_uint-Free v.minor, (show_uint-Free v.patch, tt)))

show_version-ne-nil : (v : Version) (rest : Text) → show_version v ++ rest ≢ []
unfolding show_version join_with
show_version-ne-nil v rest e = let (c, s, p, d) = show_uint_head v.major in cc (p, e)

-- The file can be opened and holds `v` in print, the rest of a release's name, which is free of
-- white space, and white space.
pub record Holds (E : Env) (procfs : AsyncProcfs E.File) (s : State E.World) (v : Version)
    (w₂ : E.World) : Type 0 where
  pub rest : Text
  pub tail : Text
  pub file : E.File
  pub opened_world : E.World
  pub version_fits : IsVersion v
  pub rest_stops : Stops rest
  pub rest_is_word : Free is_whitespace rest
  pub tail_is_space : Full is_whitespace tail
  pub opened :
      E.open_at procfs.file (codes "sys/kernel/osrelease") (read_options E) s.world
      ≡ returned file opened_world
  pub text :
      E.hybrid_read_to_string file opened_world ≡ returned ((show_version v ++ rest) ++ tail) w₂

module _ (E : Env) (procfs : AsyncProcfs E.File) (s : State E.World) (v : Version) (w : E.World)
    (holds : Holds E procfs s v w) where
  open holds use {rest, tail}

  pub current_release : current E procfs s ≡ returned v (record s { world = w })
  unfolding current
  current_release =
      read_value_word E procfs (codes "sys/kernel/osrelease") from_str E.from_message holds.file []
        (show_version v ++ rest) tail v s holds.opened_world w holds.opened holds.text tt
        (All-append _ (show_version v) rest (show_version-Free v) holds.rest_is_word)
        holds.tail_is_space (show_version-ne-nil v rest)
        (from_str-show_version v rest holds.version_fits holds.rest_stops)

  -- With an empty cache, and a file that holds the print of a version whose fields fit, then text that
  -- begins with neither a dot nor a digit and has no white space, then white space, `cached` returns that
  -- version and stores its packing.
  pub cached_release :
      s.kernel ≡ 0
      → cached E procfs s ≡ returned v (record { world = w; kernel = to_u32 E.little_endian v })
  cached_release empty = cached_miss E procfs s (record s { world = w }) v empty current_release
