-- ===== src/Compat/Gss/Tests.antt =====
-- The theorem on the GSSAPI stubs at a call that passes some outputs and NULL for others.
use atlantic_engine.Compat.Gss.Outputs.{Call, init_sec_context}

abbrev first_leg : Call
first_leg = init_sec_context 10 20 0 40 0 60
