-- ===== src/AdBlock/Loader/Fallback.antt =====
-- Which engine the load publishes.
use atlantic_engine.Base.{
  ◌≡◌, ◌⊎◌, inl, inr, refl, sym, ap, Bool, true, false, Option, none, some, Bytes, codes, ◌++◌,
  if◌then◌else◌, arith,
}
use mathlib.Core.Option.{some-injective}
use atlantic_engine.AdBlock.Glib.{Glib, GlibLaws}
use atlantic_engine.AdBlock.Engine.{Engine}
use atlantic_engine.AdBlock.Loader.{
  Files, Loaded, shipped_dir, is_updated_newer, engine_from, load_cache, use_resources,
  load_resources, load_engine,
}

module _ {E : Type 0} (g : Glib) (lib : Engine E) (files : Files) (updated_dir : Bytes) where
  -- The engine that the updated cache gives, and the one that the shipped cache gives.
  abbrev pub updated_engine : Option E
  updated_engine = engine_from g lib files (g.build_filename updated_dir (codes "engine.dat"))

  abbrev pub shipped_engine : Option E
  shipped_engine = engine_from g lib files (shipped_dir ++ codes "/engine.dat")

  -- The updated copy is newer and loads.
  abbrev pub UpdatedServes : E → Type 0
  UpdatedServes e = (is_updated_newer g files updated_dir ≡ true) × (updated_engine ≡ some e)

  -- The shipped copy loads, and the updated one is not newer or does not load.
  abbrev pub ShippedServes : E → Type 0
  ShippedServes e =
      (shipped_engine ≡ some e)
      × ((is_updated_newer g files updated_dir ≡ false) ⊎ (updated_engine ≡ none))

  -- Which cache is used, and for which reported directory.
  abbrev Choice : Option E → Bytes → Type 0
  Choice found dir =
      ((found ≡ none)
        × (shipped_engine ≡ none)
        × ((is_updated_newer g files updated_dir ≡ false) ⊎ (updated_engine ≡ none)))
      ⊎ ((e : E) × (found ≡ some e)
          × (((dir ≡ updated_dir) × UpdatedServes e) ⊎ ((dir ≡ shipped_dir) × ShippedServes e)))

  -- What is published, from the choice of the cache.
  abbrev pub Published : Loaded E → Type 0
  Published loaded =
      ((loaded.engine ≡ none)
        × (shipped_engine ≡ none)
        × ((is_updated_newer g files updated_dir ≡ false) ⊎ (updated_engine ≡ none)))
      ⊎ ((e : E) × (((loaded.dir ≡ updated_dir) × UpdatedServes e)
            ⊎ ((loaded.dir ≡ shipped_dir) × ShippedServes e))
          × (loaded.engine
              ≡ some
                  (use_resources g lib files e
                    (files (g.build_filename loaded.dir (codes "adblock-resources.json")))).1))

  module _ (laws : GlibLaws g) where
    shipped_path :
        g.build_filename shipped_dir (codes "engine.dat") ≡ shipped_dir ++ codes "/engine.dat"
    shipped_path =
        laws.build_filename_lem (codes "/usr/share/atlantic-browse") (codes "engine.dat") b'r'
          (λ h. omega arith) (λ h. omega arith)

    -- The second try.
    shipped-Choice :
        (o : Option E)
        → o ≡ shipped_engine
        → (is_updated_newer g files updated_dir ≡ false) ⊎ (updated_engine ≡ none)
        → Choice o shipped_dir
    shipped-Choice none eq why = inl (refl, sym eq, why)
    shipped-Choice (some e) eq why = inr (e, refl, inr (refl, (sym eq, why)))

    cache-Choice :
        (newer : Bool) (o : Option E)
        → newer ≡ is_updated_newer g files updated_dir
        → o
          ≡ engine_from g lib files
              (g.build_filename (if newer then updated_dir else shipped_dir) (codes "engine.dat"))
        → Choice
            (load_cache g lib files updated_dir newer o).0
            (load_cache g lib files updated_dir newer o).1
    unfolding load_cache
    cache-Choice true (some e) n eq = inr (e, refl, inl (refl, (sym n, sym eq)))
    cache-Choice true none n eq = shipped-Choice shipped_engine refl (inr (sym eq))
    cache-Choice false (some e) n eq =
        inr (e, refl, inr (refl, (rw (← shipped_path) (sym eq), inl (sym n))))
    cache-Choice false none n eq = inl (refl, rw (← shipped_path) (sym eq), inl (sym n))

    load_resources-Choice :
        (found : Option E) (dir : Bytes)
        → Choice found dir
        → Published (load_resources g lib files (found, dir))
    unfolding load_resources
    load_resources-Choice none dir (inl (e, f, why)) = inl (refl, f, why)
    load_resources-Choice none dir (inr (e, f, s)) = cc (f)
    load_resources-Choice (some x) dir (inl (f, e, why)) = cc (f)
    load_resources-Choice (some x) dir (inr (e, f, s)) = inr (
      e,
      s,
      ap some (
          ap
            (λ (y : E).
              (use_resources g lib files y
                (files (g.build_filename dir (codes "adblock-resources.json")))).1)
            (some-injective _ _ f)),
    )

    -- The load publishes no engine only if the shipped cache does not load and the updated one is
    -- not newer or does not load either. Otherwise it publishes the updated cache if that is newer
    -- and loads, and else the shipped one, each with the resources of its own directory.
    pub load_engine_lem : Published (load_engine g lib files updated_dir)
    unfolding load_engine
    load_engine_lem =
        load_resources-Choice _ _ (cache-Choice (is_updated_newer g files updated_dir) _ refl refl)
