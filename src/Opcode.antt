-- ===== src/Opcode.antt =====
-- command.go: the telnet opcodes, under the names of the constants there (`DO` is `do_op`).
use telnet.Prelude.{ℕ, Option, none, some, Bytes, text, ◌==◌, if◌then◌else◌}

abbrev pub eor : ℕ
eor = 239

abbrev pub se : ℕ
se = 240

abbrev pub nop : ℕ
nop = 241

abbrev pub datamark : ℕ
datamark = 242

abbrev pub brk : ℕ
brk = 243

abbrev pub ip : ℕ
ip = 244

abbrev pub ao : ℕ
ao = 245

abbrev pub ayt : ℕ
ayt = 246

abbrev pub ec : ℕ
ec = 247

abbrev pub el : ℕ
el = 248

abbrev pub ga : ℕ
ga = 249

abbrev pub sb : ℕ
sb = 250

abbrev pub will : ℕ
will = 251

abbrev pub wont : ℕ
wont = 252

abbrev pub do_op : ℕ
do_op = 253

abbrev pub dont : ℕ
dont = 254

abbrev pub iac : ℕ
iac = 255

-- The map `commandCodes`.
unfoldable pub command_codes : ℕ → Option Bytes
command_codes b =
    if b == eor
    then some (text "EOR")
    else if b == se
    then some (text "SE")
    else if b == nop
    then some (text "NOP")
    else if b == ga
    then some (text "GA")
    else if b == sb
    then some (text "SB")
    else if b == will
    then some (text "WILL")
    else if b == wont
    then some (text "WONT")
    else if b == do_op
    then some (text "DO")
    else if b == dont
    then some (text "DONT")
    else if b == iac
    then some (text "IAC")
    else none
