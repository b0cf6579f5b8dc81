-- ===== src/Tests.antt =====
-- Concrete runs of the model: the theorems at inputs that meet their conditions.
mod Memory
mod CacheTests
mod DnsTests
mod ForwardTests
mod GeoTests
mod RestTests
mod SyncTests
mod ConfigTests
mod NameTests
mod WebTests
mod PanelTests
mod FormTests
mod CommandTests
mod DownloadTests
mod StoreTests
mod CopyTests
mod RestoreTests
