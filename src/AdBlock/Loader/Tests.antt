-- ===== src/AdBlock/Loader/Tests.antt =====
-- The theorem on the load at a shipped cache and a newer updated one.
use atlantic_engine.Base.{none, some, codes, streq, if◌then◌else◌}
use atlantic_engine.AdBlock.Loader.{Files, load_engine}
use atlantic_engine.AdBlock.Loader.Fallback.{Published, load_engine_lem}
use atlantic_engine.Samples.{sample_glib, sample_glib-GlibLaws, sample_engine}

-- Both caches are there, and the updated one has the greater stamp.
two_caches : Files
two_caches path =
    if streq path (codes "/home/a/engine.version")
    then some (codes "2")
    else if streq path (codes "/usr/share/atlantic-browser/engine.version")
    then some (codes "1")
    else if streq path (codes "/home/a/engine.dat")
    then some (codes "updated")
    else if streq path (codes "/usr/share/atlantic-browser/engine.dat")
    then some (codes "shipped")
    else none

load_engine_example :
    Published sample_glib sample_engine two_caches
      (codes "/home/a")
      (load_engine sample_glib sample_engine two_caches (codes "/home/a"))
load_engine_example =
    load_engine_lem sample_glib sample_engine two_caches (codes "/home/a") sample_glib-GlibLaws
