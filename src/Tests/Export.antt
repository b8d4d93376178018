-- ===== src/Tests/Export.antt =====
-- What a child process is given of two scopes.
use opsh_actual.Base.{◌≡◌, refl, false, List, [], ◌∷◌, codes, Bytes, str_eq}
use opsh_actual.Base.Run.{Run, ok, ◌>>=◌}
use opsh_actual.Exec.Variable.{
  Environ, environ_new, environ_get, environ_set_flags, environ_set, environ_set_local,
  check_readonly, write, create, vf_export, export_var_cb, export_scopes, environ_export_to_c,
  environ_export, environ_unset,
}
use opsh_actual.Foundation.Hashtable.{
  ht_fnv1a, ht_init, ht_get, probe, start, place, insert, reinsert, ht_resize, set_at, ht_set,
  ht_remove, shifts, backward_shift, unlink, ht_foreach,
}
use opsh_actual.Vm.Value.{Value}

program : Unit {0}
unfolding ht_fnv1a ht_init ht_get start probe place insert reinsert ht_resize set_at ht_set str_eq
    ht_remove shifts backward_shift unlink ht_foreach environ_new environ_get environ_set_flags
    environ_set environ_set_local check_readonly write create export_var_cb export_scopes
    environ_export_to_c environ_export environ_unset
program = tt

-- An exported variable, and what a function's scope over it does before the export.
child_of : (Environ → Run Environ) → Run (List (Bytes × Bytes))
child_of f =
    environ_set_flags (environ_new [] false) (codes "x") (Value.string (codes "1")) vf_export
    >>= λ r. f (environ_new r.0 false) >>= environ_export_to_c

exported_local :
    child_of (λ env. environ_set_local env (codes "x") (Value.string (codes "2")) >>= λ env.
    environ_export env (codes "x"))
    ≡ ok ((codes "x", codes "2") ∷ [])
unfolding program child_of
exported_local = refl

-- A local variable that is not exported hides the exported one from the shell, not from the child.
hidden_local :
    child_of (λ env. environ_set_local env (codes "x") (Value.string (codes "2")))
    ≡ ok ((codes "x", codes "1") ∷ [])
unfolding program child_of
hidden_local = refl
