-- ===== src/Tests.antt =====
-- Concrete inputs on which the theorems of the development apply.
mod LinkTests
mod PlistTests
mod AllocTests
mod VtimerTests
mod MessageTests
mod SemTests
mod MinixTests
mod IpcTests
mod IrqTests
mod FsTests
mod CacheTests
mod BreakTests
mod BitmapTests
mod ProcessTests
