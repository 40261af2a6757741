-- ===== src/System.antt =====
-- The parts together: what main of src/rds95.c, the thread of src/udp_server.c and the encoder file do to
-- the encoder, as steps in any order.
pub mod Groups
pub mod Invariant
pub mod InText
pub mod Bounds
pub mod Runs
use rds.Common.{ℕ, List, Bool, Option}
use rds.Model.{RdsEon, RdsEncoder}
use rds.Lua.{Lua, World}
use rds.Groups.Clock.{Tm}
use rds.Sequence.{get_rds_group}
use rds.Store.{Layout, Answers, init_rds_encoder, encoder_save_to_file}
use rds.Udp.{Handler, poll_udp_server}
use rds.Common.{◌<◌}
use rds.Model.{RdsGroup, programs}
use rds.Api.{Api}
use rds.Api.Calls.{Call, run}
use rds.Api.Hooks.{Statics, lua_set_rds_program_defaults, lua_reset_rds, lua_encode_group}

module _ (lay : Layout) (signed : Bool) (stray : RdsEon) (L : Lua) (handler : Handler L) where
  -- The encoder, the interpreter, and the encoder file.
  abbrev pub System : Type 0
  System = World L × Option (List ℕ)

  -- The states that the program reaches when it starts with the file `disk`: groups for any stream at any
  -- time, datagrams, the file being written, a new start from it, and the functions that scripts call,
  -- on any writing programme. The loops of main make groups only.
  pub data Reached (disk : Option (List ℕ)) : System → Type 0 where
    started :
        (utc : Tm) (io : Answers) (i : L.Interp)
        → Reached disk (init_rds_encoder lay signed L utc io disk i)
    sent :
        (utc : Tm) (stream : ℕ) (w : World L) (file : Option (List ℕ))
        → Reached disk (w, file)
        → Reached disk ((get_rds_group L signed stray utc stream w).0, file)
    restarted :
        (utc : Tm) (io : Answers) (i : L.Interp) (w : World L) (file : Option (List ℕ))
        → Reached disk (w, file)
        → Reached disk (init_rds_encoder lay signed L utc io file i)
    commanded :
        (datagram : Option (List ℕ)) (w : World L) (file : Option (List ℕ))
        → Reached disk (w, file)
        → Reached disk ((poll_udp_server L handler datagram w).1, file)
    saved :
        (io : Answers) (w : World L) (file : Option (List ℕ))
        → Reached disk (w, file)
        → Reached disk (w, encoder_save_to_file lay signed io w.0 file)
    called :
        (c : Call) (p : ℕ) (w : World L) (file : Option (List ℕ))
        → p < programs
        → Reached disk (w, file)
        → Reached disk
            (((run c (record { encoder = w.0; writing_program = p })).encoder, w.1), file)
    defaulted :
        (statics : Statics L) (utc : Tm) (w : World L) (file : Option (List ℕ))
        → Reached disk (w, file)
        → Reached disk (lua_set_rds_program_defaults L statics utc w, file)
    reset :
        (utc : Tm) (io : Answers) (w : World L) (file : Option (List ℕ))
        → Reached disk (w, file)
        → Reached disk (lua_reset_rds lay signed L utc io (w, file))
    encoded :
        (g : RdsGroup) (arg : Option (List ℕ)) (w : World L) (file : Option (List ℕ))
        → Reached disk (w, file)
        → Reached disk ((lua_encode_group L signed stray g arg w).1, file)
