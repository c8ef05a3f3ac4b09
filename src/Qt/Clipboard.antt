-- ===== src/Qt/Clipboard.antt =====
-- qt5-plugin/WPEClipboardBridge.cpp: what a page writes to the clipboard reaches the system's.
use atlantic_engine.Base.{
  ℕ, ◌≡◌, refl, Bool, true, false, Option, none, some, List, [], ◌∷◌, ◌++◌, if◌then◌else◌, ◌==◌,
  Bytes, codes, arith,
}

-- wpe_qt_set_clipboard_write_hook, and QClipboard::setText.
pub data Call : Type 0 where
  set_hook : Call
  set_text : Bytes → Call

-- `writeTextToSystemClipboard`, with whether there is a clipboard.
unfoldable pub write_text : Bool → Option Bytes → List Call
write_text has_clipboard none = []
write_text has_clipboard (some text) = if has_clipboard then set_text text ∷ [] else []

-- `ensure`, over its static flag and qEnvironmentVariableIntValue.
unfoldable pub ensure : (Bytes → ℕ) → Bool → Bool × List Call
ensure env_int registered =
    if registered
    then (true, [])
    else if env_int (codes "ATLANTIC_DISABLE_CLIPBOARD_BRIDGE") == 1
    then (true, [])
    else (true, set_hook ∷ [])

-- Several calls, each with the environment at its time.
unfoldable pub ensure_all : List (Bytes → ℕ) → Bool → Bool × List Call
ensure_all [] registered = (registered, [])
ensure_all (env_int ∷ envs) registered =
    let (registered1, calls) = ensure env_int registered in
    let (registered2, more) = ensure_all envs registered1 in (registered2, calls ++ more)

ensure_all_registered : (envs : List (Bytes → ℕ)) → (ensure_all envs true).1 ≡ []
unfolding ensure_all ensure
ensure_all_registered [] = refl
ensure_all_registered (env_int ∷ envs) = ensure_all_registered envs

-- Only the environment at the first call counts, and the hook is set once or never.
pub ensure_all_lem :
    (env_int : Bytes → ℕ) (envs : List (Bytes → ℕ))
    → (ensure_all (env_int ∷ envs) false).1
      ≡ (if env_int (codes "ATLANTIC_DISABLE_CLIPBOARD_BRIDGE") == 1 then [] else set_hook ∷ [])
unfolding ensure_all ensure
ensure_all_lem env_int envs = ground (arith, ensure_all_registered envs)
