-- ===== src/Rds95.antt =====
-- src/rds95.c: the deadlines, the configuration, the loop that prints groups and that of the modulator. The command line,
-- threads and signals are not modelled.
pub mod Deadline
pub mod Modulator
pub mod Rounds
pub mod Laws
use Prim.Native.String.{String}
use text.Mathlib.Text.{◌==◌}
use rds.Common.{ℕ, zero, suc, ◌+◌, ◌/◌, ◌%◌, ◌^◌, List, [], ◌∷◌, ◌++◌, Bool, true, false, ◌&&◌}
use rds.Common.{if◌then◌else◌, ltb, get_or}
use rds.Model.{RdsEon, RdsEncoder, RdsGroup}
use rds.Lua.{Lua, World}
use rds.Groups.Clock.{Tm}
use rds.Sequence.{get_rds_group}
use rds.Checkword.{get_block_from_group, add_checkwords}
use rds.Tcp.{Net, Answer, send_to_tcp_clients, is_tcp_server_running}

-- RDS95_Config
pub record Rds95Config : Type 0 where
  pub udp_port : ℕ
  pub tcp_port : ℕ
  pub asciig : ℕ

-- `config_handler`, with the 32 bits of what `atoi` makes of a value. The result `false` is 0, an
-- error.
unfoldable pub config_handler :
    (String → ℕ) → String → String → String → Rds95Config → Bool × Rds95Config
config_handler atoi section name value config =
    let n = atoi value % 2 ^ 32 in
    if (section == "rds95") && (name == "udp_port")
    then (true, record config { udp_port = n % 2 ^ 16 })
    else if (section == "rds95") && (name == "tcp_port")
    then (true, record config { tcp_port = n % 2 ^ 16 })
    else if (section == "rds95") && (name == "asciig")
    then if ltb 1 n then (false, config) else (true, record config { asciig = n })
    else (true, config)

-- The digits of `%04X` for 16 bits.
unfoldable pub hex_digit : ℕ → ℕ
hex_digit d = if ltb d 10 then 0x30 + d else 0x37 + d

unfoldable pub hex4 : ℕ → List ℕ
unfolding hex_digit
hex4 w =
    hex_digit (w / 4096 % 16)
    ∷ hex_digit (w / 256 % 16)
    ∷ hex_digit (w / 16 % 16)
    ∷ hex_digit (w % 16)
    ∷ []

-- `starts`: "G:", "H:", "I:" and "J:" with a line end. There is none for the streams 4 to 6, which read
-- past the array; here they get an empty text.
abbrev pub starts : List (List ℕ)
starts =
    (0x47 ∷ 0x3a ∷ 0x0d ∷ 0x0a ∷ [])
    ∷ (0x48 ∷ 0x3a ∷ 0x0d ∷ 0x0a ∷ [])
    ∷ (0x49 ∷ 0x3a ∷ 0x0d ∷ 0x0a ∷ [])
    ∷ (0x4a ∷ 0x3a ∷ 0x0d ∷ 0x0a ∷ [])
    ∷ []

-- The text of a group: 24 characters, which the buffer of 1024 holds.
unfoldable pub ascii_group : ℕ → RdsGroup → List ℕ
unfolding hex4
ascii_group i g =
    get_or starts i []
    ++ (hex4 (get_block_from_group g 0)
        ++ (hex4 (get_block_from_group g 1)
            ++ (hex4 (get_block_from_group g 2)
                ++ (hex4 (get_block_from_group g 3) ++ (0x0d ∷ 0x0a ∷ 0x0d ∷ 0x0a ∷ [])))))

module _ (L : Lua) (signed : Bool) (stray : RdsEon) where
  -- `get_rds_bits` of src/rds.c.
  unfoldable pub get_rds_bits : Tm → ℕ → World L → World L × List ℕ
  get_rds_bits utc stream w =
      let (w', g) = get_rds_group L signed stray utc stream w in (w', add_checkwords g)

  -- The body of the inner loop: a group for the stream is printed, and sent to the clients.
  unfoldable pub ascii_stream : Tm → (ℕ → Answer) → ℕ → World L × Net → List ℕ × (World L × Net)
  unfolding ascii_group
  ascii_stream utc answers i (w, net) =
      let (w', g) = get_rds_group L signed stray utc i w in
      let sent = (send_to_tcp_clients answers net).1 in
      (ascii_group i g, (w', if is_tcp_server_running net then sent else net))

  -- The inner loop with `left` streams left from `i` on. A hook may change the number of streams, which
  -- is below 8, so 8 rounds are enough.
  unfoldable pub ascii_round :
      ℕ → Tm → (ℕ → Answer) → ℕ → World L × Net → List (List ℕ) × (World L × Net)
  unfolding ascii_stream
  ascii_round zero utc answers i st = ([], st)
  ascii_round (suc left) utc answers i st =
      let (text, st1) = ascii_stream utc answers i st in
      let (texts, st2) = ascii_round left utc answers (i + 1) st1 in
      if ltb i st.0.0.streams then (text ∷ texts, st2) else ([], st)
