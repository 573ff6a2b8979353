-- ===== src/Lib.antt =====
-- PCIe simulator: the kernel driver's rings, registers, DMA engine, IOCTL interface and life
-- cycle, the user-space library with its Linux and Windows backends and its C++ classes, the test
-- configuration, the command line and the log, and the programs that test them.
--
-- The parts and how they interact:
-- - kernel/ringbuffer.c keeps two rings of 256 descriptors for a device, each under a spinlock.
-- - kernel/mmio.c keeps the registers of BAR0 in a block of 4096 bytes. Reads mix in the device's
--   flags, writes have side effects, and a finished transfer updates the registers.
-- - kernel/dma.c validates a request, moves the data through a kernel buffer, delays and counts.
-- - kernel/chardev.c takes IOCTL calls from user space, and runs a transfer or hands out or resets
--   the statistics under the device's mutex.
-- - kernel/driver.c loads the module and probes and removes its device, whose files in /dev and
--   /proc kernel/chardev.c and kernel/procfs.c set up and remove.
-- - sim/linux_sim.c is the backend that lib/core.c calls on Linux: eight simulated devices,
--   handles from malloc, and statistics for each device.
-- - sim/windows_sim.c is the backend on Windows, where a device is open at most once at a time.
-- - lib/core.c passes the calls of a program on to the backend. lib/device.hpp wraps a handle in a
--   class that closes it, and lib/monitor.hpp measures transfers.
-- - utils/config.c builds and validates the configuration of a test run, utils/options.cpp fills
--   it from the command line, and utils/csv_logger.cpp writes the log of a session.
-- - examples/cpp_test.cpp is a program over all of these: it parses its command line, opens a
--   session, tests every device by a transfer pattern, and runs threads at once.
--   examples/basic_test.c calls lib/core.c for one device.
--
-- Which file models which part:
-- - Base and its children: Boolean tests, lists with native indices, machine words, bits, error
--   numbers, code that can fault, and the least and the greatest of a list.
-- - Kernel.Ring: struct pcie_sim_ring as the record Ring; pcie_sim_ring_submit as submit,
--   pcie_sim_ring_complete as complete, init_ring, cleanup_ring, pcie_sim_ring_count and
--   pcie_sim_ring_space. Ring.Inv is the invariant and what a call leaves of a valid ring,
--   Ring.Queue the queue that a ring promises, Ring.Window the arithmetic of positions on a ring.
--   Kernel.Rings: pcie_sim_ring_init and pcie_sim_ring_cleanup.
-- - Kernel.Device: the records of kernel/common.h. Kernel.Memory: blocks of bytes under readl()
--   and writel(). Kernel.User: user memory.
-- - Kernel.Mmio: pcie_sim_mmio_init, pcie_sim_mmio_cleanup, pcie_sim_mmio_read32 as read32,
--   pcie_sim_mmio_write32 as write32, pcie_sim_mmio_update_dma as update_dma. Its children see
--   BAR0 as a table of registers.
-- - Kernel.Dma: the functions of kernel/dma.c by their names, pcie_sim_dma_transfer as
--   dma_transfer.
-- - Kernel.Chardev: pcie_sim_open, pcie_sim_release and pcie_sim_char_ioctl.
-- - Kernel.Ledger: what the driver holds of the kernel. Kernel.Nodes: pcie_sim_char_init,
--   pcie_sim_char_cleanup, pcie_sim_proc_init and pcie_sim_proc_cleanup. Kernel.Driver:
--   pcie_sim_probe, pcie_sim_remove, create_platform_devices and destroy_platform_devices, and
--   pcie_sim_init and pcie_sim_exit as module_init and module_exit.
-- - Kernel.Procfs: proc_stats_show, as the calls that write the page.
-- - Api: the types of lib/types.h and pcie_sim_error_string of lib/utils.c.
-- - Sim.Linux: the functions of sim/linux_sim.c by their names without pcie_sim_ and linux_sim_.
--   Linux.Calls has the view of handles and logs that the backend implements.
-- - Sim.Windows: pcie_sim_open_impl, pcie_sim_close_impl and the other calls of sim/windows_sim.c
--   by their names without pcie_sim_, from initialized devices on. Windows.Startup has
--   windows_sim_init, windows_sim_cleanup and the call of pcie_sim_open_impl that initializes,
--   Windows.Wait the busy wait.
-- - Utils.Config: the types of utils/config.h and the functions of utils/config.c by their names
--   without pcie_sim_ and config_.
-- - Utils.Options: the class ProgramOptions of utils/options.hpp and utils/options.cpp. Its
--   children have create_otpu_options (Standard), to_config (Convert), and what parsing keeps of
--   the values.
-- - Utils.Csv: the classes CSVLogger and SessionLogger of utils/csv_logger.cpp.
-- - Library.Backend: the functions of lib/api.h as an interface, a record of operations with laws
--   over the view of handles and logs. Library.Core: lib/core.c on Linux, that fills it.
--   Library.Device: the classes Device and DeviceManager of lib/device.hpp over any backend that
--   keeps the laws; Device.Scope has programs that construct, move, use and destroy devices.
--   Library.Monitor: the metrics and the BenchmarkRunner of lib/monitor.hpp. Monitor.Thread has
--   its PerformanceMonitor as steps of the reporting thread and of the one that starts and stops
--   it.
-- - Examples.Tester, Examples.Pattern, Examples.Stress and Examples.Program:
--   examples/cpp_test.cpp, its functions by their names, over any backend that keeps the laws.
--   Tester has the ErrorInjector and the state that the tests share, Stress its threads as phases,
--   and Stress.Scheduler their steps in turn. Records and Logging relate the transfers that
--   devices count to the records of the log. Examples.Basic: examples/basic_test.c, with what it
--   prints as lines.
-- - Tests: runs on concrete inputs.
--
-- How the code is modelled: state is passed explicitly and a function returns the state that it
-- leaves. `none` is a fault where a result is an option: a NULL or wild pointer followed, an
-- access out of range, a division by zero. Numbers are natural numbers, and a field of w bits is
-- reduced modulo 2 ^ w where the code computes it. A section under a lock is one step, so that
-- sequences of calls stand for every interleaving of such sections. Loops are over a list or over
-- the device numbers, of which the driver has one; only the busy wait of sim/windows_sim.c has a
-- bound on its readings of the counter, which is enough if it is above the readings that the
-- counter takes for the ticks to wait, and the scheduler of the stress test has a bound on the
-- steps of its threads, 40000 for each thread and second and 2 for each thread: a transfer takes 4
-- steps and is followed by a sleep of 100 microseconds at least. What the kernel and the C library
-- answer (allocations, registrations, the clock, random numbers, the scheduler, copies from and to
-- user memory, command numbers, the printing of names, numbers and times, std::stoi, the types
-- float and double) are arguments. A C++ function returns or throws, and a std::map is a list of
-- pairs.
--
-- Not modelled: printing to the console and to the kernel's log, the help text among it; the order
-- in which threads enter windows_sim_init, which no lock guards; calls that start and stop a
-- monitoring from several threads at once or from its callback, which no lock guards either; a
-- program that runs out of memory for its own vectors, or for the threads of the stress test;
-- examples/cpp_test_old.cpp, which no Makefile names, and the build.
pub mod Base
pub mod Library
pub mod Examples
pub mod Kernel
pub mod Utils
pub mod Api
pub mod Sim
pub mod Tests
