-- ===== src/Store/Link.antt =====
-- CBaseMdb.hpp: the operations that concern the connection rather than the data.
use simple_dsp.Base.{Bool, ℤ}
use simple_dsp.Text.{Bytes}
use simple_dsp.Prog.{Outcome}
use simple_dsp.Store.{Double, Mdb}

pub record Link (d : Double) (m : Mdb d) : Type 0 where
  pub connect : Bytes → ℤ → m.State → Outcome Bool × m.State
  pub set_num_db : ℤ → m.State → Outcome Bool × m.State
  pub close : m.State → m.State
  pub remove_key : ℤ → Bytes → m.State → ℤ × m.State
