-- ===== src/Tests/System.antt =====
-- The program with a script that uses the functions of the encoder, from a start without a file.
use rds.Common.{arith, List, [], ◌∷◌, true, some, none}
use rds.Model.{zero_eon}
use rds.Lua.{Lua, World}
use rds.Lua.Keeps.{HooksKeep}
use rds.Udp.{Handler}
use rds.Api.Calls.{Call, run_all, write, set_ps_raw, toggle_rt_ab, set_program, set_streams}
use rds.Api.Runs.{run_all-IsValid}
use rds.Api.Valid.{IsEncoder}
use rds.Store.{Answers}
use rds.System.{System, Reached, started, sent, commanded, saved}
use rds.System.Invariant.{FileFits, Reached-IsEncoder}
use package.rds.Tests.Groups.{silent, name}
use package.rds.Tests.Sequence.{noon}
use package.rds.Tests.Layout.{whole}

-- What the script does in each of its hooks.
abbrev pub calls : List Call
calls =
    set_program (some 1)
    ∷ write (set_ps_raw (some name))
    ∷ write toggle_rt_ab
    ∷ set_streams (some 2)
    ∷ []

abbrev pub acted : World silent → World silent
acted w = ((run_all calls (record { encoder = w.0; writing_program = 0 })).encoder, w.1)

acted-IsEncoder : (w : World silent) → IsEncoder w.0 → IsEncoder (acted w).0
acted-IsEncoder w v =
    (run_all-IsValid calls (record { encoder = w.0; writing_program = 0 })
      (record { encoder = v; writing_program = omega arith })).encoder

abbrev pub scripted : Lua
scripted = record silent {
  hook_table = λ _ _. some tt;
  group_table = λ _. some tt;
  raw_len = λ _ _. 1;
  raw_get = λ _ _ _. some tt;
  rds2_function = λ _. some tt;
  pcall = λ _ w. acted w;
  pcall_group = λ _ _ w. (none, acted w);
  pcall_rds2 = λ _ _ w. (none, acted w);
}

abbrev pub command : Handler scripted
command = record {
  data_handle = λ _. some tt;
  pcall_data = λ _ text w. (some (some text), acted w);
}

scripted-HooksKeep : HooksKeep scripted IsEncoder
scripted-HooksKeep = record {
  pcall = λ f w v. acted-IsEncoder w v;
  pcall_group = λ f grp w v. acted-IsEncoder w v;
  pcall_rds2 = λ f stream w v. acted-IsEncoder w v;
}

abbrev io : Answers
io = record { opens = true; renames = true }

abbrev Run : System whole true zero_eon scripted command → Type 0
Run s = Reached whole true zero_eon scripted command none s

-- A start, a group, a command and a save.
after_save : (s : System whole true zero_eon scripted command) × Run s
after_save =
    (_, saved io _ _ (commanded (some (0x41 ∷ [])) _ _ (sent noon 0 _ _ (started noon io tt))))

Reached-IsEncoder_example : IsEncoder after_save.0.0.0 × FileFits whole after_save.0.1
Reached-IsEncoder_example =
    Reached-IsEncoder whole true zero_eon scripted command none after_save.0 (λ f l. l)
      scripted-HooksKeep (λ f text w v. acted-IsEncoder w v) tt after_save.1
