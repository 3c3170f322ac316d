-- ===== src/Lib.antt =====
-- The transaction level blocks of the simulator, and what makes them correct.
--
-- The program simulates ARM systems on SystemC and TLM-2. A platform is a processor, a bus or an
-- address decoder that forwards its transactions, and peripherals: register files behind a socket,
-- whose interrupt lines lead to an interrupt controller. The modules here follow these parts.
--
--   Base      what they share: machine words and the macros of src/utils/utils.h, results with
--             faults, register files, bit lemmas, and the phases of a process that waits.
--   Pl081     src/tlm_blocks/Arm/PrimeCells/Pl081/Pl081.h: the DMA controller.
--   Pl190     src/tlm_blocks/Arm/PrimeCells/Pl190/Pl190.h: the vectored interrupt controller.
--   Sp804     src/tlm_blocks/Arm/PrimeCells/Sp804/Sp804.h: the dual timer.
--   Sp805     src/tlm_blocks/Arm/PrimeCells/Sp805/Sp805.h: the watchdog.
--   Aic       src/tlm_blocks/At91sam9261/Aic/Aic.cpp: the interrupt controller of the At91sam9261.
--   Itc       src/tlm_blocks/Mc13224v/Itc/Itc.cpp: the interrupt controller of the Mc13224v.
--   Spi       src/tlm_blocks/Mc13224v/Spi/Spi.cpp: the interface to a serial flash, which tells its identity.
--   Spif      src/tlm_blocks/Mc13224v/Spif/Spif.cpp: the interface to the serial flash.
--   Uart      src/tlm_blocks/Mc13224v/Uart/Uart.cpp: the serial port, its queues and its threads.
--   Crm       src/tlm_blocks/Mc13224v/Crm/Crm.cpp: the clock and reset module.
--   Mc13224v  src/tlm_blocks/Mc13224v/Mc13224v.cpp: the clock and reset module connected to the
--             interrupt controller.
--   Tlm       src/utils/utils.h: the transactions, their checks, and the macros that send them.
--   Peripheral  src/tlm_blocks/Generic/Peripheral/Peripheral.h: a register block behind its socket.
--   IntLine   src/tlm_blocks/Generic/IntMaster/IntMaster.h and IntSlave/IntSlave.h: an interrupt line.
--   BusSlave  src/tlm_blocks/Generic/BusSlave/BusSlave.h: a slave with memory, by bytes of words.
--   IntOr     src/tlm_blocks/Generic/IntOr/IntOr.h: the gate that joins interrupt lines.
--   Mpa       src/tlm_blocks/Generic/Mpa/Mpa.h: the multi port arbiter.
--   Bus       src/tlm_blocks/Top/Bus/Bus.h: the bus, its ranges and its arbitration.
--   AddrDec   src/tlm_blocks/Generic/AddrDec/AddrDec.h: the address decoder.
--   CpuBase   src/tlm_blocks/Cpu/CpuBase.h: the base of the processors: the thread that runs instructions, its
--             cache of handlers, and the callbacks for a debugger.
--   Elf       src/utils/ElfReader/ElfReader.h: the segments of an executable, which CpuBase loads.
--   Gdb       src/utils/GdbServerNone/GdbServerTcp.h: the server for a remote debugger.
--   Arm32     src/tlm_blocks/Cpu/Arm/Arm32.h: the ARM instruction set simulator: decoder, handlers,
--             status registers.
--
-- How the code is read. A module's state is a record with the names of its members (`m_reg` is
-- `reg`); its registers are a function of the word index, and the index constants of a block stand
-- in its Regs module. A handler is a function on that record, under the name it has in the source;
-- a helper of the model names a part of a handler. `assert`, TLM_ERR, SYS_ERR and SC_REPORT_FATAL end
-- the simulation: they are the faults of a Result, and the state is lost. A 32-bit or 64-bit operation
-- that can wrap is written with its remainder. The level last sent on an interrupt line is a Bool.
-- A register handler starts with an internal delay, before which it touches no state: the model
-- starts at its end. Times are counts of nanoseconds, and the current time is an argument: the step
-- relations allow any, and so every order of times.
--
-- Sockets. The registers of a block are an interface record of its two methods, which the transport
-- of Peripheral takes; Crm takes the transport behind its interrupt as an argument, and Mc13224v
-- fills both. The other blocks are modelled at their methods, and their lines as Bools.
--
-- Concurrency. A blocking transport that waits is cut at its wait and at the forwarded transaction,
-- which may wait too. Each initiator is one process, so that it makes one call at a time; an
-- immediate notification makes a waiting process ready, and a ready process runs at any later
-- step. The step relations allow every interleaving of such pieces.
--
-- Debugger. A connection of the server is the finite list of what its reads meet, behind which it is
-- closed, and of what is sent; a chunk of bytes can end anywhere. A connection that stays open and
-- silent, on which a read would wait for ever, has no model. The processor is a parameter of the
-- server, by its callbacks. CpuBase fills them, over the debug transport of a slave with memory, and
-- its thread calls the server before each instruction.
--
-- Executables. A file is its bytes and its size, and a pointer into its mapping is an offset. The
-- headers are read at the places that the ELF format gives their fields, at the offset and the
-- distance that the file names.
--
-- Fuel. The loop that loads the segments of an executable runs on fuel; one more than the segments is
-- enough. The loop that hears a debugger runs on fuel; two more than what is still to arrive is enough.
-- The loop of the debug transport of AddrDec runs on fuel; a byte count and one more is
-- enough, for targets that answer with at least one byte. Every other loop is bounded in the source
-- and is structural recursion here.
--
-- What is not modelled: SystemC and TLM-2, the instruction set simulator copied from another
-- project, generated register headers, command lines and configuration files, and the blocks that have
-- no module in the list above. What a target does with a transaction that is forwarded to it is no
-- part of the bus, the arbiter or the decoder; the count that a target's debug transport returns is
-- a parameter.
pub mod Base
pub mod Pl190
pub mod Mpa
pub mod Bus
pub mod AddrDec
pub mod Sp804
pub mod Itc
pub mod Sp805
pub mod BusSlave
pub mod IntOr
pub mod Uart
pub mod Arm32
pub mod Aic
pub mod Pl081
pub mod Spif
pub mod Spi
pub mod Gdb
pub mod CpuBase
pub mod Tlm
pub mod IntLine
pub mod Peripheral
pub mod Crm
pub mod Mc13224v
pub mod Elf
