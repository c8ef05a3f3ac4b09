-- ===== src/Compat/Gss.antt =====
-- shims/compat/libgssapi_krb5_stub.c: the GSSAPI entry points, over a store of cells by address. A
-- cell is one object; a gss_buffer_desc at `b` has its length at `b` and its value at `b + 1`.
pub mod Outputs
mod Tests
use atlantic_engine.Base.{ℕ, ◌+◌, Bool, List, [], ◌∷◌, ◌==◌, if◌then◌else◌}

abbrev pub Store : Type 0
Store = ℕ → ℕ

-- `*p = v`
write : ℕ → ℕ → Store → Store
write p v h a = if a == p then v else h a

-- `if (p) *p = 0`: NULL is 0.
clear : ℕ → Store → Store
clear p h = if p == 0 then h else write p 0 h

-- `if (b) { b->length = 0; b->value = NULL; }`
clear_buffer : ℕ → Store → Store
clear_buffer b h = if b == 0 then h else write (b + 1) 0 (write b 0 h)

abbrev pub gss_s_complete : ℕ
gss_s_complete = 0

abbrev pub gss_s_unavailable : ℕ
gss_s_unavailable = 0x00030000

-- The arguments that a function ignores are left out.
pub gss_delete_sec_context : (minor ctx : ℕ) → Store → ℕ × Store
gss_delete_sec_context minor ctx h = (gss_s_unavailable, clear ctx (clear minor h))

pub gss_display_status : (minor message_context status_string : ℕ) → Store → ℕ × Store
gss_display_status minor message_context status_string h =
    (gss_s_unavailable, clear_buffer status_string (clear message_context (clear minor h)))

pub gss_import_name : (minor output_name : ℕ) → Store → ℕ × Store
gss_import_name minor output_name h = (gss_s_unavailable, clear output_name (clear minor h))

pub gss_init_sec_context :
    (minor context_handle actual_mech_type output_token ret_flags time_rec : ℕ) → Store → ℕ × Store
gss_init_sec_context minor context_handle actual_mech_type output_token ret_flags time_rec h = (
  gss_s_unavailable,
  clear time_rec (
      clear ret_flags (
        clear_buffer output_token (clear actual_mech_type (clear context_handle (clear minor h))))),
)

pub gss_release_buffer : (minor buffer : ℕ) → Store → ℕ × Store
gss_release_buffer minor buffer h = (gss_s_complete, clear_buffer buffer (clear minor h))

pub gss_release_name : (minor name : ℕ) → Store → ℕ × Store
gss_release_name minor name h = (gss_s_complete, clear name (clear minor h))
