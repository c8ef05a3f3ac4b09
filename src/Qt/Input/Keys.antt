-- ===== src/Qt/Input/Keys.antt =====
-- The keys of qt5-plugin/WPEQtViewBackend.cpp: the keysym and the modifiers of a key event.
use atlantic_engine.Base.{
  ℕ, ◌+◌, ◌-◌, ◌*◌, Bool, ◌&&◌, ◌||◌, Option, none, some, List, [], ◌∷◌, if◌then◌else◌, ltb, leb,
  ◌==◌,
}

-- A key of Qt::Key, as far as the code names it.
pub data Key : Type 0 where
  key_return key_enter key_backspace key_tab key_backtab key_escape key_delete key_insert : Key
  key_left key_up key_right key_down key_page_up key_page_down key_home key_end : Key
  unnamed : ℕ → Key

-- The XKB keysyms of the keys that the code names; 0 for the others.
abbrev pub special : Key → ℕ
special key_return = 0xff0d
special key_enter = 0xff0d
special key_backspace = 0xff08
special key_tab = 0xff09
special key_backtab = 0xfe20
special key_escape = 0xff1b
special key_delete = 0xffff
special key_insert = 0xff63
special key_left = 0xff51
special key_up = 0xff52
special key_right = 0xff53
special key_down = 0xff54
special key_page_up = 0xff55
special key_page_down = 0xff56
special key_home = 0xff50
special key_end = 0xff57
special (unnamed k) = 0

-- QChar::isHighSurrogate and QChar::surrogateToUcs4, on UTF-16 units.
abbrev pub is_high : ℕ → Bool
is_high u = leb 0xd800 u && ltb u 0xdc00

abbrev pub surrogate_to_ucs4 : ℕ → ℕ → ℕ
surrogate_to_ucs4 high low = ((high - 0xd800) * 0x400 + (low - 0xdc00)) + 0x10000

-- The first code point of a text in UTF-16.
abbrev pub first_code_point : List ℕ → Option ℕ
first_code_point [] = none
first_code_point (u ∷ []) = some u
first_code_point (u ∷ l ∷ rest) = some (if is_high u then surrogate_to_ucs4 u l else u)

-- `0x01000000 | cp`: a code point has no bit there, so the bit is added.
unfoldable pub keysym_of_text : Option ℕ → ℕ
keysym_of_text none = 0
keysym_of_text (some cp) =
    if leb 0x20 cp && ltb cp 0x100 then cp else if leb 0x100 cp then 0x1000000 + cp else 0

-- `keysymForQtKey`
unfoldable pub keysym_for_qt_key : Key → List ℕ → ℕ
keysym_for_qt_key key text =
    if special key == 0 then keysym_of_text (first_code_point text) else special key

-- The keysym of `dispatchKeyEvent`, from the event's own and from the one of libwpe.
unfoldable pub keysym : ℕ → Key → List ℕ → ℕ → ℕ
keysym native key text of_libwpe =
    if native == 0
    then if keysym_for_qt_key key text == 0 then of_libwpe else keysym_for_qt_key key text
    else native

-- Qt::KeyboardModifiers, as far as the code reads them, and whether any other is set.
pub record KeyModifiers : Type 0 where
  pub shift : Bool
  pub control : Bool
  pub meta : Bool
  pub alt : Bool
  pub others : Bool

abbrev pub is_any : KeyModifiers → Bool
is_any m = ((m.shift || m.control) || (m.meta || m.alt)) || m.others

-- wpe_input_keyboard_event, with the modifiers as four bits.
pub record KeyEvent : Type 0 where
  pub time : ℕ
  pub sym : ℕ
  pub scan_code : ℕ
  pub pressed : Bool
  pub shift : Bool
  pub control : Bool
  pub meta : Bool
  pub alt : Bool

-- QKeyEvent
pub record QtKey : Type 0 where
  pub native : ℕ
  pub key : Key
  pub text : List ℕ
  pub scan : ℕ
  pub timestamp : ℕ
  pub modifiers : KeyModifiers

-- `dispatchKeyEvent`, with the modifiers that the application holds and the keysym of libwpe.
unfoldable pub dispatch_key_event : KeyModifiers → (Key → Bool → ℕ) → QtKey → Bool → KeyEvent
dispatch_key_event of_application of_libwpe e pressed =
    let m = if is_any e.modifiers then e.modifiers else of_application in
    record {
      time = e.timestamp;
      sym = keysym e.native e.key e.text (of_libwpe e.key pressed);
      scan_code = e.scan;
      pressed = pressed;
      shift = m.shift;
      control = m.control;
      meta = m.meta;
      alt = m.alt;
    }
