-- ===== src/Compat/Forward.antt =====
-- The names of newer C libraries that shims/compat/libglibc-compat.c, shims/compat/libglib_compat.c and
-- shims/compat/libharfbuzz_icu_stub.c hand on to older ones. What is called is a parameter.
use atlantic_engine.Base.{ℕ, Bool, [], Bytes}
use atlantic_engine.Base.Int.{ℤ, negsuc}

-- The numbers that strtol and its kin read off a text, with the rest of it: `R`.
module _ {R : Type 0} (strtoul strtoull strtol strtoll : Bytes → ℕ → R) where
  unfoldable pub isoc23_strtoul : Bytes → ℕ → R
  isoc23_strtoul nptr base = strtoul nptr base

  unfoldable pub isoc23_strtoull : Bytes → ℕ → R
  isoc23_strtoull nptr base = strtoull nptr base

  unfoldable pub isoc23_strtol : Bytes → ℕ → R
  isoc23_strtol nptr base = strtol nptr base

  unfoldable pub isoc23_strtoll : Bytes → ℕ → R
  isoc23_strtoll nptr base = strtoll nptr base

-- AT_EMPTY_PATH, AT_FDCWD and AT_SYMLINK_NOFOLLOW
abbrev pub at_empty_path : ℕ
at_empty_path = 0x1000

abbrev pub at_fdcwd : ℤ
at_fdcwd = negsuc 99

abbrev pub at_symlink_nofollow : ℕ
at_symlink_nofollow = 0x100

-- The system call newfstatat, with a directory, a path and flags; `R` is its result and the buffer.
module _ {R : Type 0} (newfstatat : ℤ → Bytes → ℕ → R) where
  unfoldable pub fstat : ℤ → R
  fstat fd = newfstatat fd [] at_empty_path

  unfoldable pub fstat64 : ℤ → R
  fstat64 fd = fstat fd

  unfoldable pub stat : Bytes → R
  stat path = newfstatat at_fdcwd path 0

  unfoldable pub lstat : Bytes → R
  lstat path = newfstatat at_fdcwd path at_symlink_nofollow

  unfoldable pub stat64 : Bytes → R
  stat64 path = stat path

  unfoldable pub lstat64 : Bytes → R
  lstat64 path = lstat path

-- The scanf functions over a stream, a text and the standard input. `A` is a list of arguments.
module _ {S A R : Type 0} (vfscanf : S → Bytes → A → R) (vsscanf : Bytes → Bytes → A → R)
    (vscanf : Bytes → A → R) where
  unfoldable pub isoc23_fscanf : S → Bytes → A → R
  isoc23_fscanf stream fmt ap = vfscanf stream fmt ap

  unfoldable pub isoc23_sscanf : Bytes → Bytes → A → R
  isoc23_sscanf str fmt ap = vsscanf str fmt ap

  unfoldable pub isoc23_scanf : Bytes → A → R
  isoc23_scanf fmt ap = vscanf fmt ap

-- The dynamic linker of GLIBC_2.17, with what it keeps as the state `S`.
module _ {S H P E : Type 0} (dlopen : Bytes → ℕ → S → S × H) (dlsym : H → Bytes → S → S × P)
    (dlerror : S → S × E) where
  unfoldable pub compat_dlopen : Bytes → ℕ → S → S × H
  compat_dlopen path flags s = dlopen path flags s

  unfoldable pub compat_dlsym : H → Bytes → S → S × P
  compat_dlsym handle symbol s = dlsym handle symbol s

  unfoldable pub compat_dlerror : S → S × E
  compat_dlerror s = dlerror s

-- `_dl_find_object` finds nothing, and leaves the result as it was.
unfoldable pub dl_find_object : {R : Type 0} → ℕ → R → R × ℤ
dl_find_object addr result = (result, negsuc 0)

-- `g_once_init_enter_pointer` and `g_once_init_leave_pointer`: a location of a pointer is one of a
-- number, over the state of GLib.
module _ {S : Type 0} (g_once_init_enter : ℕ → S → S × Bool)
    (g_once_init_leave : ℕ → ℕ → S → S) where
  unfoldable pub g_once_init_enter_pointer : ℕ → S → S × Bool
  g_once_init_enter_pointer location s = g_once_init_enter location s

  unfoldable pub g_once_init_leave_pointer : ℕ → ℕ → S → S
  g_once_init_leave_pointer location result s = g_once_init_leave location result s

-- `hb_icu_script_to_script`
unfoldable pub hb_icu_script_to_script : ℤ → ℕ
hb_icu_script_to_script script_code = 0
