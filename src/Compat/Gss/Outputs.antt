-- ===== src/Compat/Gss/Outputs.antt =====
-- What the GSSAPI stubs write.
use atlantic_engine.Base.{
  ℕ, ◌+◌, ◌≡◌, refl, ◌∙◌, Bool, false, ◌&&◌, ◌||◌, not, List, [], ◌∷◌, ◌==◌, if◌then◌else◌, arith,
}
use atlantic_engine.Compat.Gss.{
  Store, write, clear, clear_buffer, gss_s_complete, gss_s_unavailable, gss_delete_sec_context,
  gss_display_status, gss_import_name, gss_init_sec_context, gss_release_buffer, gss_release_name,
}

-- A call, with the pointers that it may write through.
pub data Call : Type 0 where
  delete_sec_context : (minor ctx : ℕ) → Call
  display_status : (minor message_context status_string : ℕ) → Call
  import_name : (minor output_name : ℕ) → Call
  init_sec_context :
      (minor context_handle actual_mech_type output_token ret_flags time_rec : ℕ) → Call
  release_buffer : (minor buffer : ℕ) → Call
  release_name : (minor name : ℕ) → Call

unfoldable pub call : Call → Store → ℕ × Store
unfolding gss_delete_sec_context gss_display_status gss_import_name gss_init_sec_context
    gss_release_buffer gss_release_name
call (delete_sec_context minor ctx) h = gss_delete_sec_context minor ctx h
call (display_status minor context status) h = gss_display_status minor context status h
call (import_name minor name) h = gss_import_name minor name h
call (init_sec_context minor handle mech token flags time) h =
    gss_init_sec_context minor handle mech token flags time h
call (release_buffer minor buffer) h = gss_release_buffer minor buffer h
call (release_name minor name) h = gss_release_name minor name h

-- An output parameter: a pointer to one cell, or to a buffer descriptor.
pub data Output : Type 0 where
  cell buffer : ℕ → Output

-- The output parameters of a call.
abbrev pub outputs : Call → List Output
outputs (delete_sec_context minor ctx) = cell minor ∷ cell ctx ∷ []
outputs (display_status minor context status) = cell minor ∷ cell context ∷ buffer status ∷ []
outputs (import_name minor name) = cell minor ∷ cell name ∷ []
outputs (init_sec_context minor handle mech token flags time) =
    cell minor ∷ cell handle ∷ cell mech ∷ buffer token ∷ cell flags ∷ cell time ∷ []
outputs (release_buffer minor b) = cell minor ∷ buffer b ∷ []
outputs (release_name minor name) = cell minor ∷ cell name ∷ []

-- The address is one of an output that is not NULL.
abbrev pub covers : ℕ → Output → Bool
covers a (cell p) = not (p == 0) && a == p
covers a (buffer b) = not (b == 0) && (a == b || a == b + 1)

abbrev pub is_output : ℕ → List Output → Bool
is_output a [] = false
is_output a (o ∷ os) = covers a o || is_output a os

-- The two release functions succeed; every other function is unavailable.
abbrev pub status : Call → ℕ
status (release_buffer _ _) = gss_s_complete
status (release_name _ _) = gss_s_complete
status _ = gss_s_unavailable

clear_output : Output → Store → Store
clear_output (cell p) h = clear p h
clear_output (buffer b) h = clear_buffer b h

clear_all : List Output → Store → Store
clear_all [] h = h
clear_all (o ∷ os) h = clear_all os (clear_output o h)

clear_output_lem :
    (o : Output) (h : Store) (a : ℕ) → clear_output o h a ≡ (if covers a o then 0 else h a)
unfolding clear_output clear clear_buffer write
clear_output_lem (cell p) h a = ground arith
clear_output_lem (buffer b) h a = ground arith

clear_all_lem :
    (os : List Output) (h : Store) (a : ℕ) → clear_all os h a ≡ (if is_output a os then 0 else h a)
unfolding clear_all
clear_all_lem [] h a = refl
clear_all_lem (o ∷ os) h a =
    clear_all_lem os (clear_output o h) a
    ∙ rw (clear_output_lem o h a) (later (is_output a os) (covers a o) (h a))
  where
    later : (x y : Bool) (v : ℕ) → (if x then 0 else if y then 0 else v) ≡ (if y || x then 0 else v)
    later x y v = ground arith

call-eq : (c : Call) (h : Store) → call c h ≡ (status c, clear_all (outputs c) h)
unfolding call clear_all clear_output
call-eq (delete_sec_context minor ctx) h = refl
call-eq (display_status minor context status) h = refl
call-eq (import_name minor name) h = refl
call-eq (init_sec_context minor handle mech token flags time) h = refl
call-eq (release_buffer minor b) h = refl
call-eq (release_name minor name) h = refl

-- Every call returns its fixed status, clears each output that is given, however the pointers
-- alias, and leaves every other cell as it was.
pub call_lem :
    (c : Call) (h : Store) (a : ℕ)
    → ((call c h).0 ≡ status c) × ((call c h).1 a ≡ (if is_output a (outputs c) then 0 else h a))
call_lem c h a = rw (call-eq c h) (refl, clear_all_lem (outputs c) h a)
