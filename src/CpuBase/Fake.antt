-- ===== src/CpuBase/Fake.antt =====
-- The methods that the base processor has itself, where every instruction is the fake one, under the
-- server of GdbServerNone.h and under that of GdbServerTcp.h.
use open_socemu.Base.{◌+◌, true, false, none, ok, ◌>>=◌, u32}
use open_socemu.Gdb.{Server}
use open_socemu.Gdb.Session.{before_exec_insn}
use open_socemu.CpuBase.{CpuBase, Methods, callbacks}

pub data Handler : Type 0 where
  fake_hdlr : Handler

unfoldable pub reset : CpuBase → CpuBase
reset c = record c { pc = 0 }

unfoldable pub exec_insn : Handler → CpuBase → CpuBase
exec_insn fake_hdlr c = record c { pc = u32 (c.pc + 4) }

-- Under GdbServerNone, which never stops the program.
abbrev pub base_methods : Methods Handler CpuBase
base_methods = record {
  get_pc = λ c. c.pc;
  fetch_insn = λ c. ok c;
  handle_exception = λ c. ok (false, c);
  before_exec_insn = λ pc c. ok (true, c);
  decode_insn = λ c. ok (fake_hdlr, c);
  exec_insn = λ insn c. ok (exec_insn insn c);
}

-- Under the server for a remote debugger, which waits for no connection.
abbrev pub server_methods : Methods Handler (Server CpuBase)
server_methods = record {
  get_pc = λ s. s.cpu.pc;
  fetch_insn = λ s. ok s;
  handle_exception = λ s. ok (false, s);
  before_exec_insn = λ pc s. before_exec_insn callbacks none pc s >>= λ t. ok (true, t);
  decode_insn = λ s. ok (fake_hdlr, s);
  exec_insn = λ insn s. ok (record s { cpu = exec_insn insn s.cpu });
}
