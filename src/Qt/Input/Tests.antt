-- ===== src/Qt/Input/Tests.antt =====
-- The theorem on keysyms at a letter outside the basic plane.
use atlantic_engine.Base.{◌≡◌, some, arith}
use atlantic_engine.Qt.Input.Keys.{keysym, unnamed}
use atlantic_engine.Qt.Input.Keysym.{utf16, code_point, code_point-keysym}

code_point-keysym_example : code_point (keysym 0 (unnamed 65) (utf16 0x1f600) 0) ≡ some 0x1f600
code_point-keysym_example = code_point-keysym 0x1f600 0 65 (omega arith) (omega arith)
