-- ===== src/AdBlock/Loader.antt =====
-- load_engine_thread up to the publication, and the start of the extension.
pub mod Fallback
pub mod Start
mod Tests
use atlantic_engine.Base.{
  ℕ, Bool, true, false, not, ◌&&◌, Option, none, some, List, [], ◌∷◌, ◌++◌, ◌>>=◌, if◌then◌else◌,
  or_else, Bytes, codes, nonempty, streq,
}
use atlantic_engine.Base.Int.{ℤ, pos, ltb_ℤ}
use atlantic_engine.AdBlock.Glib.{Glib}
use atlantic_engine.AdBlock.Engine.{Engine}
use atlantic_engine.AdBlock.Hosts.{split_allowlist}
use atlantic_engine.AdBlock.Waiting.{no_waits}
use atlantic_engine.AdBlock.Requests.{Globals, Variant, boolean, boolean_string}

-- `ATL_SHIPPED_DIR`
abbrev pub shipped_dir : Bytes
shipped_dir = codes "/usr/share/atlantic-browser"

-- `g_file_get_contents`: the content of a file, or a failure.
abbrev pub Files : Type 0
Files = Bytes → Option Bytes

-- The stamp in a file, 0 if it cannot be read.
stamp : Glib → Option Bytes → ℤ
stamp g none = pos 0
stamp g (some ver) = g.ascii_strtoll ver

-- `use_updated`
unfoldable pub is_updated_newer : Glib → Files → Bytes → Bool
unfolding stamp
is_updated_newer g files updated_dir =
    ltb_ℤ (stamp g (files (shipped_dir ++ codes "/engine.version")))
      (stamp g (files (g.build_filename updated_dir (codes "engine.version"))))

-- What the load ends with: the engine that is published, the directory that is reported, and
-- whether the resources were there but failed to load.
pub record Loaded (E : Type 0) : Type 0 where
  pub engine : Option E
  pub dir : Bytes
  pub resources_failed : Bool

module _ {E : Type 0} (g : Glib) (lib : Engine E) (files : Files) where
  -- `if (g_file_get_contents (path, &dat, &len, NULL) && len > 0) create_from_cache (dat, len)`
  pub engine_from : Bytes → Option E
  engine_from path = do dat ← files path; if nonempty dat then lib.create_from_cache dat else none

  -- The choice of the file, and the second try on the shipped one: the engine and `dir`.
  load_cache : Bytes → Bool → Option E → Option E × Bytes
  load_cache updated_dir use_updated (some engine) =
      (some engine, if use_updated then updated_dir else shipped_dir)
  load_cache updated_dir true none = (engine_from (shipped_dir ++ codes "/engine.dat"), shipped_dir)
  load_cache updated_dir false none = (none, shipped_dir)

  -- The scriptlet and redirect resources, into an engine that was created.
  pub use_resources : E → Option Bytes → Bool × E
  use_resources engine none = (true, engine)
  use_resources engine (some res) =
      if nonempty res then lib.use_resources_json engine res else (true, engine)

  load_resources : Option E × Bytes → Loaded E
  load_resources (none, dir) = record { engine = none; dir = dir; resources_failed = false }
  load_resources (some engine, dir) =
      let (ok, engine') =
        use_resources engine (files (g.build_filename dir (codes "adblock-resources.json"))) in
      record { engine = some engine'; dir = dir; resources_failed = not ok }

  pub load_engine : Bytes → Loaded E
  load_engine updated_dir =
      let use_updated = is_updated_newer g files updated_dir in
      let dir = if use_updated then updated_dir else shipped_dir in
      load_resources (
        load_cache updated_dir use_updated
          (engine_from (g.build_filename dir (codes "engine.dat"))))

-- How the load is started: on the calling thread, before `initialize` returns, or on another.
pub data Started : Type 0 where
  in_line threaded : Started

-- The flags that the UI process passes with the extension; `none` is NULL.
pub initial_globals : Glib → Option Variant → Globals
initial_globals g (some (boolean b)) = record { enabled = b; allowlist = none; statics = no_waits }
initial_globals g (some (boolean_string b joined)) = record {
  enabled = b;
  allowlist = split_allowlist g (some joined);
  statics = no_waits;
}
initial_globals g _ = record { enabled = true; allowlist = none; statics = no_waits }

-- `sync_load && *sync_load && strcmp (sync_load, "0") != 0`
is_sync_load : Option Bytes → Bool
is_sync_load none = false
is_sync_load (some v) = nonempty v && not (streq v (codes "0"))

-- `thread_created`: whether `g_thread_try_new` gave a thread.
pub start_load : Option Bytes → Bool → Started
start_load sync_load thread_created =
    if is_sync_load sync_load then in_line else if thread_created then threaded else in_line
