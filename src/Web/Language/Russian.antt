-- ===== src/Web/Language/Russian.antt =====
-- The Russian texts of internal/web/i18n.go, under their keys; a letter is its code point.
use namedor.Common.{List, [], ◌∷◌}
use namedor.Text.{Text, codes}

unfoldable pub russian : List (Text × Text)
russian =
    (codes "GeoDNS Admin", codes "GeoDNS Админ")
    ∷ (codes "Logout", codes "Выход")
    ∷ (codes "DNS Zones", codes "DNS Зоны")
    ∷ (codes "Templates", codes "Шаблоны")
    ∷ (codes "DNS Templates", codes "DNS Шаблоны")
    ∷ (codes "Query Logs", codes "Логи запросов")
    ∷ (codes "Loading...", codes "Загрузка...")
    ∷ (codes "+ New Zone", codes "+ Новая зона")
    ∷ (codes "+ New Template", codes "+ Новый шаблон")
    ∷ (codes "Query logs viewer coming soon...", codes "Просмотр логов скоро появится...")
    ∷ (codes "Cancel", codes "Отмена")
    ∷ (codes "EN", codes "EN")
    ∷ (codes "RU", codes "RU")
    ∷ (codes "Username", codes "Логин")
    ∷ (codes "Password", codes "Пароль")
    ∷ (codes "Login", codes "Войти")
    ∷ (codes "Invalid username or password", codes "Неверные логин или пароль")
    ∷ (codes "Zone Name", codes "Имя зоны")
    ∷ (codes "Records", codes "Записей")
    ∷ (codes "Actions", codes "Действия")
    ∷ (codes "No zones found. Create your first zone!", codes "Зон нет. Создайте первую зону!")
    ∷ (codes "View Records", codes "Просмотр записей")
    ∷ (codes "Delete", codes "Удалить")
    ∷ (codes "Delete zone %s?", codes "Удалить зону %s?")
    ∷ (codes "Create New Zone", codes "Создать новую зону")
    ∷ (codes "Create", codes "Создать")
    ∷ (codes "Zone name is required", codes "Требуется имя зоны")
    ∷ (codes "Error creating zone: %s", codes "Ошибка создания зоны: %s")
    ∷ (codes "Invalid zone ID", codes "Некорректный ID зоны")
    ∷ (codes "Zone not found", codes "Зона не найдена")
    ∷ (codes "Error loading records", codes "Ошибка загрузки записей")
    ∷ (codes "Error loading templates", codes "Ошибка загрузки шаблонов")
    ∷ (codes "Error loading zones", codes "Ошибка загрузки зон")
    ∷ (codes "Error deleting zone", codes "Ошибка удаления зоны")
    ∷ (codes "← Back to Zones", codes "← Назад к зонам")
    ∷ (codes "Records for %s", codes "Записи для %s")
    ∷ (codes "+ Add Record", codes "+ Добавить запись")
    ∷ (codes "📋 Apply Template", codes "📋 Применить шаблон")
    ∷ (
      codes "No records found. Add your first record!",
      codes "Записей нет. Добавьте первую запись!",
    )
    ∷ (codes "Name", codes "Имя")
    ∷ (codes "Type", codes "Тип")
    ∷ (codes "TTL", codes "TTL")
    ∷ (codes "GeoIP", codes "GeoIP")
    ∷ (codes "Data", codes "Данные")
    ∷ (codes "Edit", codes "Изменить")
    ∷ (codes "Delete this record?", codes "Удалить эту запись?")
    ∷ (codes "Add New Record", codes "Добавить запись")
    ∷ (codes "TTL (seconds)", codes "TTL (сек)")
    ∷ (codes "Data (IP/Value)", codes "Данные (IP/значение)")
    ∷ (codes "GeoIP Targeting (optional)", codes "GeoIP-таргетинг (опционально)")
    ∷ (codes "Use '@' for zone apex", codes "Используйте '@' для корня зоны")
    ∷ (codes "Country Code", codes "Код страны")
    ∷ (codes "Continent Code", codes "Код континента")
    ∷ (codes "ASN", codes "ASN")
    ∷ (codes "Subnet", codes "Подсеть")
    ∷ (codes "Add Record", codes "Добавить")
    ∷ (codes "Name, type, and data are required", codes "Имя, тип и данные обязательны")
    ∷ (codes "Error creating record set: %s", codes "Ошибка создания набора записей: %s")
    ∷ (codes "Error creating record: %s", codes "Ошибка создания записи: %s")
    ∷ (codes "Error deleting record", codes "Ошибка удаления записи")
    ∷ (codes "Template Name", codes "Имя шаблона")
    ∷ (codes "Description", codes "Описание")
    ∷ (
      codes "No templates found. Create your first template!",
      codes "Шаблонов нет. Создайте первый!",
    )
    ∷ (codes "View", codes "Просмотр")
    ∷ (codes "Delete template '%s'?", codes "Удалить шаблон '%s'?")
    ∷ (codes "Create New Template", codes "Создать новый шаблон")
    ∷ (codes "Create Template", codes "Создать шаблон")
    ∷ (codes "Template name is required", codes "Требуется имя шаблона")
    ∷ (codes "Error creating template: %s", codes "Ошибка создания шаблона: %s")
    ∷ (codes "Brief description of this template", codes "Краткое описание шаблона")
    ∷ (codes "Invalid template ID", codes "Некорректный ID шаблона")
    ∷ (codes "Template not found", codes "Шаблон не найден")
    ∷ (codes "Template Records", codes "Записи шаблона")
    ∷ (codes "No records in this template.", codes "В этом шаблоне нет записей.")
    ∷ (codes "Country: %s", codes "Страна: %s")
    ∷ (codes "Continent: %s", codes "Континент: %s")
    ∷ (codes "ASN: %d", codes "ASN: %d")
    ∷ (codes "Subnet: %s", codes "Подсеть: %s")
    ∷ (codes "Edit Template: %s", codes "Редактировать шаблон: %s")
    ∷ (codes "Update Template", codes "Обновить шаблон")
    ∷ (
      codes "No records yet. Add records to this template.",
      codes "Записей пока нет. Добавьте записи.",
    )
    ∷ (codes "Error updating template: %s", codes "Ошибка обновления шаблона: %s")
    ∷ (codes "Error deleting template", codes "Ошибка удаления шаблона")
    ∷ (codes "Add Template Record", codes "Добавить запись шаблона")
    ∷ (
      codes
          "Use placeholders: <code>{domain}</code> for zone name, <code>{subdomain}</code> for custom names",
      codes
          "Используйте плейсхолдеры: <code>{domain}</code> для имени зоны, <code>{subdomain}</code> для пользовательских имён",
    )
    ∷ (codes "Name (supports placeholders)", codes "Имя (поддерживает плейсхолдеры)")
    ∷ (codes "Data (supports placeholders)", codes "Данные (поддерживают плейсхолдеры)")
    ∷ (codes "Apply Template", codes "Применить шаблон")
    ∷ (codes "Zone: %s", codes "Зона: %s")
    ∷ (codes "This will create %d records:", codes "Будет создано %d записей:")
    ∷ (codes "Template Placeholders Guide", codes "Руководство по плейсхолдерам шаблонов")
    ∷ (codes "Use", codes "Используйте")
    ∷ (
      codes
          "in Name and Data fields - it will be replaced with the actual domain when applying the template",
      codes "в полях Имя и Данные - будет заменён на реальный домен при применении шаблона",
    )
    ∷ (codes "DNS Record", codes "DNS запись")
    ∷ (codes "Help", codes "Справка")
    ∷ (codes "Placeholders", codes "Плейсхолдеры")
    ∷ (codes "Example", codes "Пример")
    ∷ (codes "Applied to", codes "Применено к")
    ∷ (codes "record", codes "запись")
    ∷ (codes "Invalid record ID", codes "Некорректный ID записи")
    ∷ (codes "Record not found", codes "Запись не найдена")
    ∷ (codes "RRSet not found", codes "Набор записей (RRSet) не найден")
    ∷ (codes "Edit Record", codes "Изменить запись")
    ∷ (codes "Name cannot be changed", codes "Имя нельзя изменить")
    ∷ (codes "Type cannot be changed", codes "Тип нельзя изменить")
    ∷ (codes "Update Record", codes "Обновить запись")
    ∷ (codes "Data is required", codes "Требуются данные")
    ∷ (codes "Error updating record: %s", codes "Ошибка обновления записи: %s")
    ∷ (codes "Error updating TTL: %s", codes "Ошибка обновления TTL: %s")
    ∷ []
